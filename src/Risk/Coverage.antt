-- ===== src/Risk/Coverage.antt =====
-- Which suites the cipher rules of backend/internal/risk cover.
use secure_mail_scope_sih.Common.{
  ◌≡◌, refl, ◌∙◌, ◌≢◌, ◌⊎◌, inl, inr, true, false, not, ◌&&◌, ◌||◌, [], ◌++◌, arith, Bool-cases,
  Text, codes, text_eq, text_eq_iff, is_empty, has_prefix, contains, to_upper,
}
use secure_mail_scope_sih.Models.{TlsInfo}
use secure_mail_scope_sih.Risk.Cipher.{
  cipher_unknown, CipherInfo, unclassified, classify_exchange, is_tls13_cipher, classify_tls13,
  classify_kind, classify_size, classify_weak, classify_cipher,
}
use secure_mail_scope_sih.Risk.Policy.{Policy}
use secure_mail_scope_sih.Risk.Findings.{weak_cipher, no_forward_secrecy}
use secure_mail_scope_sih.Risk.Engine.{rule, suite_rules, cipher_rules}

-- A classified suite is AEAD or weak.
abbrev IsRated : CipherInfo → Type 0
IsRated i = (i.kind ≡ cipher_unknown) ⊎ (i.is_weak ≡ true) ⊎ (i.is_aead ≡ true)

classify_exchange-kind : (upper : Text) (i : CipherInfo) → (classify_exchange upper i).kind ≡ i.kind
unfolding classify_exchange
classify_exchange-kind upper i = ground arith

classify_kind-IsRated :
    (upper : Text) (i : CipherInfo) → i.kind ≡ cipher_unknown → IsRated (classify_kind upper i)
unfolding classify_kind
classify_kind-IsRated upper i h = ground arith

classify_size-IsRated :
    (upper : Text) (i : CipherInfo) → IsRated i → IsRated (classify_size upper i)
unfolding classify_size
classify_size-IsRated upper i h = ground arith

classify_weak-IsRated :
    (upper : Text) (i : CipherInfo) → IsRated i → IsRated (classify_weak upper i)
unfolding classify_weak
classify_weak-IsRated upper i h = ground arith

-- Every suite that `ClassifyCipher` gives a type is weak or AEAD.
classify_cipher-IsRated : (name : Text) → IsRated (classify_cipher name)
unfolding classify_cipher classify_tls13 unclassified
classify_cipher-IsRated name =
    let upper = to_upper name in
    let i = classify_exchange upper (unclassified name) in
    let rated = classify_weak-IsRated upper _ (
      classify_size-IsRated upper _
        (classify_kind-IsRated upper i (classify_exchange-kind upper (unclassified name)))) in
    elim (Bool-cases (is_tls13_cipher upper)) [
      | inl modern ↦ rw modern (inr (inr refl))
      | inr older ↦ rw older rated
    ]

-- For a session whose ServerHello was seen, with a suite that has a type, the cipher rules report a weak
-- suite, and a suite without forward secrecy where the policy wants it, and nothing else: the rule
-- CIPHER-002 for suites that are neither weak nor AEAD reports no suite at all.
pub cipher_rules_lem :
    (policy : Policy) (sid : Text) (tls : TlsInfo)
    → tls.server_hello_seen ≡ true
    → is_empty tls.cipher_suite ≡ false
    → text_eq tls.cipher_suite (codes "UNKNOWN") ≡ false
    → (classify_cipher tls.cipher_suite).kind ≢ cipher_unknown
    → cipher_rules policy sid tls
      ≡ rule (classify_cipher tls.cipher_suite).is_weak (weak_cipher sid tls.cipher_suite)
        ++ rule (policy.require_forward_secrecy && not (classify_cipher tls.cipher_suite).is_pfs) (
            no_forward_secrecy sid tls.cipher_suite
              (classify_cipher tls.cipher_suite).key_exchange_alg)
unfolding cipher_rules suite_rules
cipher_rules_lem policy sid tls seen named known typed =
    ground (arith, classify_cipher-IsRated tls.cipher_suite)

-- The upper-case name tells nothing of how the suite encrypts.
abbrev pub IsUntyped : Text → Type 0
IsUntyped upper =
    (contains upper (codes "GCM") ≡ false)
    × (contains upper (codes "POLY1305") ≡ false)
    × (contains upper (codes "CCM") ≡ false)
    × (contains upper (codes "CBC") ≡ false)
    × (contains upper (codes "RC4") ≡ false)

tls13-typed :
    (upper : Text)
    → is_tls13_cipher upper ≡ true
    → (contains upper (codes "GCM") || contains upper (codes "POLY1305")) ≡ true
unfolding is_tls13_cipher
tls13-typed upper h = ground (
  arith,
  text_eq_iff upper (codes "TLS_AES_128_GCM_SHA256"),
  text_eq_iff upper (codes "TLS_AES_256_GCM_SHA384"),
  text_eq_iff upper (codes "TLS_CHACHA20_POLY1305_SHA256"),
  named,
)
  where
    named :
        (contains (codes "TLS_AES_128_GCM_SHA256") (codes "GCM") ≡ true)
        × (contains (codes "TLS_AES_256_GCM_SHA384") (codes "GCM") ≡ true)
        × (contains (codes "TLS_CHACHA20_POLY1305_SHA256") (codes "POLY1305") ≡ true)
    named = unfold contains has_prefix codes in (refl, refl, refl)

classify_kind-untyped :
    (upper : Text) (i : CipherInfo) → IsUntyped upper → (classify_kind upper i).kind ≡ i.kind
unfolding classify_kind
classify_kind-untyped upper i h = ground arith

classify_size-kind : (upper : Text) (i : CipherInfo) → (classify_size upper i).kind ≡ i.kind
unfolding classify_size
classify_size-kind upper i = ground arith

classify_weak-kind : (upper : Text) (i : CipherInfo) → (classify_weak upper i).kind ≡ i.kind
unfolding classify_weak
classify_weak-kind upper i = ground arith

classify_cipher-untyped :
    (name : Text) → IsUntyped (to_upper name) → (classify_cipher name).kind ≡ cipher_unknown
unfolding classify_cipher unclassified
classify_cipher-untyped name h =
    let upper = to_upper name in
    let i = unclassified name in
    elim (Bool-cases (is_tls13_cipher upper)) [
      | inl modern ↦ absurd (ground (arith, tls13-typed upper modern))
      | inr older ↦ rw older (
          classify_weak-kind upper _
          ∙ classify_size-kind upper _
          ∙ classify_kind-untyped upper _ h
          ∙ classify_exchange-kind upper i)
    ]

-- A suite whose upper-case name holds none of GCM, POLY1305, CCM, CBC and RC4 gives no finding of the
-- cipher rules under any policy, whether the classification calls it weak or not: so are the NULL suites.
pub cipher_rules-untyped :
    (policy : Policy) (sid : Text) (tls : TlsInfo)
    → IsUntyped (to_upper tls.cipher_suite)
    → cipher_rules policy sid tls ≡ []
unfolding cipher_rules
cipher_rules-untyped policy sid tls h = ground (arith, classify_cipher-untyped tls.cipher_suite h)
