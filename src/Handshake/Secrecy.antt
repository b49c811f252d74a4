-- ===== src/Handshake/Secrecy.antt =====
-- The two naming functions of parser/internal/tlsparser/handshake.go that a negotiated suite goes through.
use secure_mail_scope_sih.Common.{
  ℕ, ◌/◌, ◌%◌, ◌<◌, ◌≡◌, refl, ◌⊎◌, inl, inr, Bool, true, false, not, ◌&&◌, ◌||◌, List, [], ◌∷◌,
  ◌++◌, arith, ◌==◌, if◌then◌else◌, Bool-cases, Text, codes, text_eq, has_prefix, contains, hex4,
}
use secure_mail_scope_sih.Common.{digit, has_byte, contains-has_byte}
use secure_mail_scope_sih.Handshake.Names.{
  cipher_suite_names, lookup_code, unknown_suite, name_or_unknown, cipher_suite_name,
  has_forward_secrecy, key_exchange_type,
}

-- Whether a key exchange type is an ephemeral one.
abbrev pub is_ephemeral : Text → Bool
is_ephemeral kx = text_eq kx (codes "ECDHE") || text_eq kx (codes "DHE")

-- The two functions agree on a name.
abbrev agrees : Text → Bool
agrees name =
    if has_forward_secrecy name
    then is_ephemeral (key_exchange_type name)
    else not (is_ephemeral (key_exchange_type name))

all_agree : List (ℕ × Text) → Bool
all_agree [] = true
all_agree ((k, name) ∷ m) = agrees name && all_agree m

table_agrees : all_agree cipher_suite_names ≡ true
unfolding all_agree cipher_suite_names has_forward_secrecy key_exchange_type contains has_prefix
    codes text_eq
table_agrees = refl

module _ (b : ℕ) (h : (b'F' < b) × (b < b'a')) where
  -- The digits of `%04X` are 0 to 9 and A to F.
  digit-ne : (n : ℕ) → (digit (n % 16) == b) ≡ false
  unfolding digit
  digit-ne n = ground arith

  hex4-lacks : (n : ℕ) (s : Text) → has_byte b s ≡ false → has_byte b (hex4 n ++ s) ≡ false
  unfolding hex4 has_byte
  hex4-lacks n s lacks =
      ground (arith, digit-ne (n / 4096), digit-ne (n / 256), digit-ne (n / 16), digit-ne n)

-- The name of an unknown suite has no H and no R.
unknown_suite-lacks :
    (b : ℕ) → (b ≡ b'H') ⊎ (b ≡ b'R') → (code : ℕ) → has_byte b (unknown_suite code) ≡ false
unfolding unknown_suite has_byte codes
unknown_suite-lacks b h code = ground (arith, hex4-lacks b (ground arith) code (codes ")"))

not_contained :
    (b : ℕ) (s p : Text) → has_byte b s ≡ false → has_byte b p ≡ true → contains s p ≡ false
not_contained b s p h k = ground (arith, contains-has_byte b s p)

unknown_prefix :
    (code : ℕ)
    → (has_prefix (unknown_suite code) (codes "TLS_AES_") ≡ false)
      × (has_prefix (unknown_suite code) (codes "TLS_CHACHA20_") ≡ false)
unfolding unknown_suite has_prefix codes
unknown_prefix code = (refl, refl)

-- A suite that the table does not know has neither forward secrecy nor a key exchange.
unknown_suite_secrecy :
    (code : ℕ)
    → (has_forward_secrecy (unknown_suite code) ≡ false)
      × (key_exchange_type (unknown_suite code) ≡ codes "Unknown")
unfolding has_forward_secrecy key_exchange_type
unknown_suite_secrecy code =
    let lacks_h = unknown_suite-lacks b'H' (inl refl) code in
    let lacks_r = unknown_suite-lacks b'R' (inr refl) code in
    let s = unknown_suite code in
    ground (
      arith,
      not_contained b'H' s (codes "ECDHE") lacks_h (unfold has_byte codes in refl),
      not_contained b'H' s (codes "DHE") lacks_h (unfold has_byte codes in refl),
      not_contained b'H' s (codes "ECDH") lacks_h (unfold has_byte codes in refl),
      not_contained b'R' s (codes "RSA") lacks_r (unfold has_byte codes in refl),
      unknown_prefix code,
    )

text_eq_ephemeral : (is_ephemeral (codes "ECDHE") ≡ true) × (is_ephemeral (codes "Unknown") ≡ false)
unfolding text_eq codes
text_eq_ephemeral = (refl, refl)

lookup_code-agrees :
    (code : ℕ) (m : List (ℕ × Text))
    → all_agree m ≡ true
    → agrees (unknown_suite code) ≡ true
    → agrees (name_or_unknown code (lookup_code code m)) ≡ true
unfolding all_agree lookup_code name_or_unknown
lookup_code-agrees code [] h k = k
lookup_code-agrees code ((j, name) ∷ m) h k = elim (Bool-cases (j == code)) [
  | inl found ↦ rw found (ground (arith, h))
  | inr other ↦ rw other (lookup_code-agrees code m (ground (arith, h)) k)
]

unknown_agrees : (code : ℕ) → agrees (unknown_suite code) ≡ true
unknown_agrees code =
    let (no_secrecy, no_exchange) = unknown_suite_secrecy code in
    rw (no_secrecy, no_exchange, text_eq_ephemeral.1)

agrees_eq :
    (name : Text)
    → agrees name ≡ true
    → has_forward_secrecy name ≡ is_ephemeral (key_exchange_type name)
agrees_eq name h = ground (arith, h)

-- For every 16-bit suite code, named or not, the flag HasForwardSecrecy that a ServerHello sets is
-- true exactly when the KeyExchange that it sets beside it is ECDHE or DHE.
pub has_forward_secrecy-cipher_suite_name :
    (code : ℕ)
    → has_forward_secrecy (cipher_suite_name code)
      ≡ is_ephemeral (key_exchange_type (cipher_suite_name code))
unfolding cipher_suite_name
has_forward_secrecy-cipher_suite_name code =
    agrees_eq (cipher_suite_name code)
      (lookup_code-agrees code cipher_suite_names table_agrees (unknown_agrees code))
