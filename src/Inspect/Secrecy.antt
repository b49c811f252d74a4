-- ===== src/Inspect/Secrecy.antt =====
-- `AssessForwardSecrecy` of backend/internal/tlsinspect/inspector.go against `ClassifyCipher` of
-- backend/internal/risk/cipher.go.
use secure_mail_scope_sih.Common.{
  ◌≡◌, refl, ◌∙◌, inl, inr, true, false, [], arith, Bool-cases, Text, codes, text_eq, is_empty,
  contains, to_upper, contains-tail, contains-front,
}
use secure_mail_scope_sih.Models.{fs_yes}
use secure_mail_scope_sih.Inspect.Values.{assess_forward_secrecy}
use secure_mail_scope_sih.Risk.Cipher.{
  CipherInfo, unclassified, classify_exchange, is_tls13_cipher, classify_tls13, classify_kind,
  classify_size, classify_weak, classify_cipher,
}

later-is_pfs :
    (upper : Text) (i : CipherInfo)
    → (classify_weak upper (classify_size upper (classify_kind upper i))).is_pfs ≡ i.is_pfs
unfolding classify_weak classify_size classify_kind
later-is_pfs upper i = ground arith

classify_cipher-is_pfs :
    (cipher : Text)
    → contains (to_upper cipher) (codes "DHE") ≡ true
    → (classify_cipher cipher).is_pfs ≡ true
unfolding classify_cipher classify_tls13 classify_exchange
classify_cipher-is_pfs cipher h =
    let upper = to_upper cipher in
    let i = classify_exchange upper (unclassified cipher) in
    elim (Bool-cases (is_tls13_cipher upper)) [
      | inl new ↦ rw new refl
      | inr old ↦ rw old (later-is_pfs upper i ∙ ground (arith, h))
    ]

ecdhe-dhe :
    (upper : Text) → contains upper (codes "ECDHE") ≡ true → contains upper (codes "DHE") ≡ true
unfolding codes
ecdhe-dhe upper e =
    contains-tail upper b'C' (codes "DHE") (contains-tail upper b'E' (codes "CDHE") e)

inner-dhe :
    (upper : Text) → contains upper (codes "_DHE_") ≡ true → contains upper (codes "DHE") ≡ true
unfolding codes
inner-dhe upper e =
    contains-front upper (codes "DHE") (codes "_") (contains-tail upper b'_' (codes "DHE_") e)

rsa-dhe :
    (upper : Text) → contains upper (codes "DHE_RSA") ≡ true → contains upper (codes "DHE") ≡ true
unfolding codes
rsa-dhe upper e = contains-front upper (codes "DHE") (codes "_RSA") e

-- For a version other than TLS 1.3 and no key exchange group: where the session is said to have forward
-- secrecy, the classification of its suite says so too.
pub assess_forward_secrecy-classify_cipher :
    (version cipher : Text)
    → text_eq version (codes "TLS 1.3") ≡ false
    → assess_forward_secrecy version cipher [] ≡ fs_yes
    → (classify_cipher cipher).is_pfs ≡ true
unfolding assess_forward_secrecy is_empty
assess_forward_secrecy-classify_cipher version cipher old h =
    let upper = to_upper cipher in
    classify_cipher-is_pfs cipher
      (ground (arith, old, h, ecdhe-dhe upper, inner-dhe upper, rsa-dhe upper))
