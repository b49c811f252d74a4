-- ===== src/Handshake/Framing.antt =====
-- `ProcessRecord` and `parseHandshake` of parser/internal/tlsparser/handshake.go on a record and a message
-- that are laid out as the protocol has it.
use secure_mail_scope_sih.Common.{
  ℕ, zero, suc, ◌+◌, ◌-◌, ◌*◌, ◌/◌, ◌%◌, ◌≤◌, ◌<◌, ◌≡◌, refl, ap, ◌∙◌, Bool, true, false, ◌||◌,
  none, [], ◌∷◌, arith, length, take, drop, Bytes, returns, ltb, if◌then◌else◌, byte_at,
}
use secure_mail_scope_sih.Handshake.Types.{CertInfo, Parser}
use secure_mail_scope_sih.Handshake.Records.{
  server_hello, dispatch, parse_handshake, process_record,
}
use secure_mail_scope_sih.Handshake.RoundTrip.{
  ServerHello, encode, expected, length-encode, parse_server_hello-encode,
}

take-all : (n : ℕ) (b : Bytes) → n ≡ length b → take n b ≡ b
unfolding take
take-all zero [] e = refl
take-all (suc n) [] e = absurd (omega (arith, e))
take-all zero (x ∷ b) e = absurd (omega (arith, e))
take-all (suc n) (x ∷ b) e = ap (λ t. x ∷ t) (take-all n b (omega (arith, e)))

or_false : (b : Bool) → (b || false) ≡ b
or_false true = refl
or_false false = refl

-- A handshake record of TLS 1.2.
abbrev pub record_of : Bytes → Bytes
record_of body = 22 ∷ 3 ∷ 3 ∷ length body / 256 ∷ length body % 256 ∷ body

abbrev pub message_of : ℕ → Bytes → Bytes
message_of hs_type body =
    hs_type ∷ length body / 65536 ∷ length body / 256 % 256 ∷ length body % 256 ∷ body

module _ (info : Bytes → CertInfo) (p : Parser) where
  process_record-record_of :
      (body : Bytes)
      → length body ≤ 65530
      → process_record info p (record_of body) ≡ parse_handshake info p body
  unfolding process_record byte_at drop
  process_record-record_of body h =
      let len = 256 * (length body / 256) + length body % 256 in
      let n : (5 + len) % 65536 - 5 ≡ length body = omega (arith, h) in
      let whole = take-all ((5 + len) % 65536 - 5) body n in ground (arith, h, whole)

  parse_handshake-message_of :
      (hs_type : ℕ) (body : Bytes)
      → length body < 16777216
      → parse_handshake info p (message_of hs_type body) ≡ dispatch info p hs_type body
  unfolding parse_handshake byte_at drop
  parse_handshake-message_of hs_type body h =
      let len =
        65536 * (length body / 65536) + 256 * (length body / 256 % 256) + length body % 256 in
      let n : len ≡ length body = omega (arith, h) in
      let hs_len =
        if ltb (length (message_of hs_type body)) (4 + len)
        then length (message_of hs_type body) - 4
        else len in
      let m : 4 + hs_len - 4 ≡ length body = ground (arith, n) in
      ground (arith, n, take-all (4 + hs_len - 4) body m)

  server_hello-encode :
      (h : ServerHello)
      → length h.random ≡ 32
      → server_hello p (encode h)
        ≡ returns (
          record p {
            server_result = record (p.server_result) {
              handshake = expected h p.server_result.handshake;
            };
          },
          none,
        )
  unfolding server_hello
  server_hello-encode h r =
      rw
        (
          parse_server_hello-encode h p.server_result.handshake r,
          or_false p.server_result.is_complete,
        )
        refl

  -- A record of one ServerHello without extensions, with a random value of 32 bytes and a session id of at
  -- most 255, is read back by ProcessRecord: the server's handshake gets its version, suite and compression
  -- method, nothing else changes, and no error is returned.
  pub process_record-encode :
      (h : ServerHello)
      → length h.random ≡ 32
      → length h.session_id ≤ 255
      → process_record info p (record_of (message_of 2 (encode h)))
        ≡ returns (
          record p {
            server_result = record (p.server_result) {
              handshake = expected h p.server_result.handshake;
            };
          },
          none,
        )
  unfolding dispatch
  process_record-encode h r s =
      let size = length-encode h r in
      process_record-record_of (message_of 2 (encode h)) (omega (arith, size, s))
      ∙ parse_handshake-message_of 2 (encode h) (omega (arith, size, s))
      ∙ server_hello-encode h r
