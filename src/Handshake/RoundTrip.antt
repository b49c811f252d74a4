-- ===== src/Handshake/RoundTrip.antt =====
-- What `parseServerHello` of parser/internal/tlsparser/handshake.go reads of a ServerHello laid out as the
-- protocol has it.
use secure_mail_scope_sih.Common.{
  ℕ, ◌+◌, ◌*◌, ◌≡◌, refl, sym, ap, ◌∙◌, false, none, [], ◌∷◌, ◌++◌, arith, length, length-append,
  Bytes, returns, byte_at, byte_at-append,
}
use secure_mail_scope_sih.Handshake.Types.{TlsHandshake}
use secure_mail_scope_sih.Handshake.Names.{
  tls_version_name, cipher_suite_name, has_forward_secrecy, key_exchange_type,
}
use secure_mail_scope_sih.Handshake.Hello.{
  server_extensions, server_compression, server_suite, parse_server_hello,
}

-- The fields of a ServerHello without extensions.
pub record ServerHello : Type 0 where
  pub major : ℕ
  pub minor : ℕ
  pub random : Bytes
  pub session_id : Bytes
  pub suite_high : ℕ
  pub suite_low : ℕ
  pub compression : ℕ

-- What stands behind the session id.
abbrev tail_of : ServerHello → Bytes
tail_of h = h.suite_high ∷ h.suite_low ∷ h.compression ∷ []

-- RFC 5246, 7.4.1.3.
abbrev pub encode : ServerHello → Bytes
encode h =
    (h.major ∷ h.minor ∷ [])
    ++ (h.random ++ (length h.session_id ∷ [] ++ (h.session_id ++ tail_of h)))

-- What the handshake says of it.
abbrev pub expected : ServerHello → TlsHandshake → TlsHandshake
expected h hs =
    let name = cipher_suite_name (256 * h.suite_high + h.suite_low) in
    record hs {
      server_hello_version = tls_version_name h.major h.minor;
      negotiated_version = tls_version_name h.major h.minor;
      negotiated_cipher = name;
      negotiated_cipher_hex = 256 * h.suite_high + h.suite_low;
      has_forward_secrecy = has_forward_secrecy name;
      key_exchange = key_exchange_type name;
      compression_method = h.compression;
    }

pub length-encode :
    (h : ServerHello) → length h.random ≡ 32 → length (encode h) ≡ 38 + length h.session_id
length-encode h r = ground (
  arith,
  length-append h.random (length h.session_id ∷ (h.session_id ++ tail_of h)),
  length-append h.session_id (tail_of h),
)

-- The bytes behind the random value.
byte-session :
    (h : ServerHello) (i : ℕ)
    → length h.random ≡ 32
    → byte_at (encode h) (34 + i) ≡ byte_at (length h.session_id ∷ (h.session_id ++ tail_of h)) i
byte-session h i r =
    let front = h.major ∷ h.minor ∷ h.random in
    let e : 34 + i ≡ length front + i = omega (arith, r) in
    ap (byte_at (encode h)) e
    ∙ byte_at-append front (length h.session_id ∷ (h.session_id ++ tail_of h)) i

byte-tail :
    (h : ServerHello) (i : ℕ)
    → length h.random ≡ 32
    → byte_at (encode h) (35 + length h.session_id + i) ≡ byte_at (tail_of h) i
byte-tail h i r =
    let front = length h.session_id ∷ h.session_id in
    let e : 35 + length h.session_id + i ≡ 34 + (length front + i) = omega arith in
    ap (byte_at (encode h)) e
    ∙ byte-session h (length front + i) r
    ∙ byte_at-append front (tail_of h) i

-- The parse of bytes of which the places that it reads are known.
parse_of_bytes :
    (d : Bytes) (h : ServerHello) (hs : TlsHandshake)
    → length d ≡ 38 + byte_at d 34
    → byte_at d 0 ≡ h.major
    → byte_at d 1 ≡ h.minor
    → byte_at d (34 + 1 + byte_at d 34) ≡ h.suite_high
    → byte_at d (34 + 1 + byte_at d 34 + 1) ≡ h.suite_low
    → byte_at d (34 + 1 + byte_at d 34 + 2) ≡ h.compression
    → parse_server_hello d hs ≡ returns (expected h hs, false, none)
unfolding parse_server_hello server_suite server_compression server_extensions
parse_of_bytes d h hs len e0 e1 e2 e3 e4 = ground arith

-- A ServerHello with a random value of 32 bytes and no extensions is read back whatever was there before:
-- its version, suite and compression method stand in the result, and the negotiated version is its own.
pub parse_server_hello-encode :
    (h : ServerHello) (hs : TlsHandshake)
    → length h.random ≡ 32
    → parse_server_hello (encode h) hs ≡ returns (expected h hs, false, none)
unfolding byte_at
parse_server_hello-encode h hs r =
    let d = encode h in
    let sid : byte_at d 34 ≡ length h.session_id = byte-session h 0 r in
    let at : (i : ℕ) → byte_at d (34 + 1 + byte_at d 34 + i) ≡ byte_at (tail_of h) i =
      λ i. ap (λ n. byte_at d (35 + n + i)) sid ∙ byte-tail h i r in
    let z : 34 + 1 + byte_at d 34 ≡ 34 + 1 + byte_at d 34 + 0 = omega arith in
    parse_of_bytes d h hs (length-encode h r ∙ ap (λ n. 38 + n) (sym sid)) refl refl
      (ap (byte_at d) z ∙ at 0) (at 1) (at 2)
