-- ===== src/Risk/Reports.antt =====
-- What every finding of `Assess` of backend/internal/risk/engine.go has in common.
use secure_mail_scope_sih.Common.{
  ℕ, ◌≡◌, refl, ◌⊎◌, inl, inr, Bool, true, false, not, ◌&&◌, ◌||◌, Option, none, some, List, [],
  ◌∷◌, arith, ltb, if◌then◌else◌, any, All, All-append, Text, codes, text_eq, is_empty, contains,
  to_upper,
}
use secure_mail_scope_sih.Models.{
  Severity, medium, high, critical, Finding, EmailSession, TlsInfo, CertificateInfo,
}
use secure_mail_scope_sih.Risk.Cipher.{CipherType, CipherInfo, classify_cipher}
use secure_mail_scope_sih.Risk.Policy.{Policy}
use secure_mail_scope_sih.Risk.Findings.{
  make_finding, start_tls_not_requested, start_tls_rejected, plaintext_session, version_finding,
  weak_cipher, non_aead_cipher, no_forward_secrecy, handshake_failure, weak_key, weak_signature,
  expired_certificate, premature_certificate,
}
use secure_mail_scope_sih.Risk.Engine.{
  rule, start_tls_rules, plaintext_rules, version_rules, suite_rules, cipher_rules, tls_rules,
  certificate_rules, optional_tls, optional_certificate, assess, is_auth_command, is_unknown_type,
}

-- A finding about the session, of high confidence and of medium severity at least.
pub record IsReport (sid : Text) (f : Finding) : Type 0 where
  pub about : f.session_id ≡ sid
  pub evidence_about : f.evidence.session_id ≡ sid
  pub confident : f.confidence ≡ codes "HIGH"
  pub severe : (f.severity ≡ medium) ⊎ (f.severity ≡ high) ⊎ (f.severity ≡ critical)

abbrev pub Reports : Text → List Finding → Type 0
Reports sid = All (IsReport sid)

rule-Reports : (sid : Text) (test : Bool) (f : Finding) → IsReport sid f → Reports sid (rule test f)
rule-Reports sid true f h = (h, tt)
rule-Reports sid false f h = tt

abbrev IsSevere : Severity → Type 0
IsSevere severity = (severity ≡ medium) ⊎ (severity ≡ high) ⊎ (severity ≡ critical)

make_finding-IsReport :
    (sid code title : Text) (severity : Severity) (category description details advice : Text)
    → IsSevere severity
    → IsReport sid (make_finding sid code title severity category description details advice)
unfolding make_finding
make_finding-IsReport sid code title severity category description details advice h = record {
  about = refl;
  evidence_about = refl;
  confident = refl;
  severe = h;
}

start_tls_not_requested-IsReport : (sid : Text) → IsReport sid (start_tls_not_requested sid)
unfolding start_tls_not_requested
start_tls_not_requested-IsReport sid = make_finding-IsReport sid _ _ high _ _ _ _ (inr (inl refl))

start_tls_rejected-IsReport : (sid code : Text) → IsReport sid (start_tls_rejected sid code)
unfolding start_tls_rejected
start_tls_rejected-IsReport sid code =
    make_finding-IsReport sid _ _ critical _ _ _ _ (inr (inr refl))

plaintext_session-IsReport : (sid : Text) (auth : Bool) → IsReport sid (plaintext_session sid auth)
unfolding plaintext_session
plaintext_session-IsReport sid auth = make_finding-IsReport sid _ _ _ _ _ _ _ (ground arith)

version_finding-IsReport : (sid version : Text) → IsReport sid (version_finding sid version)
unfolding version_finding
version_finding-IsReport sid version = make_finding-IsReport sid _ _ _ _ _ _ _ (ground arith)

weak_cipher-IsReport : (sid suite : Text) → IsReport sid (weak_cipher sid suite)
unfolding weak_cipher
weak_cipher-IsReport sid suite = make_finding-IsReport sid _ _ critical _ _ _ _ (inr (inr refl))

non_aead_cipher-IsReport :
    (sid suite : Text) (kind : CipherType) → IsReport sid (non_aead_cipher sid suite kind)
unfolding non_aead_cipher
non_aead_cipher-IsReport sid suite kind = make_finding-IsReport sid _ _ medium _ _ _ _ (inl refl)

no_forward_secrecy-IsReport :
    (sid suite exchange : Text) → IsReport sid (no_forward_secrecy sid suite exchange)
unfolding no_forward_secrecy
no_forward_secrecy-IsReport sid suite exchange =
    make_finding-IsReport sid _ _ medium _ _ _ _ (inl refl)

handshake_failure-IsReport : (sid : Text) (tls : TlsInfo) → IsReport sid (handshake_failure sid tls)
unfolding handshake_failure
handshake_failure-IsReport sid tls = make_finding-IsReport sid _ _ high _ _ _ _ (inr (inl refl))

weak_key-IsReport : (sid : Text) (bits minimum : ℕ) → IsReport sid (weak_key sid bits minimum)
unfolding weak_key
weak_key-IsReport sid bits minimum = make_finding-IsReport sid _ _ high _ _ _ _ (inr (inl refl))

weak_signature-IsReport : (sid algorithm : Text) → IsReport sid (weak_signature sid algorithm)
unfolding weak_signature
weak_signature-IsReport sid algorithm =
    make_finding-IsReport sid _ _ critical _ _ _ _ (inr (inr refl))

start_tls_rules-Reports : (s : EmailSession) → Reports s.id (start_tls_rules s)
unfolding start_tls_rules
start_tls_rules-Reports s =
    All-append (IsReport s.id) _ _
      (rule-Reports s.id (s.start_tls.supported && not s.start_tls.requested) _
        (start_tls_not_requested-IsReport s.id))
      (rule-Reports s.id (s.start_tls.requested && not s.start_tls.accepted_flag) _
        (start_tls_rejected-IsReport s.id s.start_tls.response_code))

plaintext_rules-Reports : (s : EmailSession) → Reports s.id (plaintext_rules s)
unfolding plaintext_rules
plaintext_rules-Reports s =
    rule-Reports s.id _ _ (plaintext_session-IsReport s.id (any is_auth_command s.protocol_events))

suite_rules-Reports :
    (policy : Policy) (sid suite : Text) (cinfo : CipherInfo)
    → Reports sid (suite_rules policy sid suite cinfo)
unfolding suite_rules
suite_rules-Reports policy sid suite cinfo =
    All-append (IsReport sid) _ _ (weak_or_not cinfo.is_weak)
      (rule-Reports sid _ _ (no_forward_secrecy-IsReport sid suite cinfo.key_exchange_alg))
  where
    weak_or_not :
        (weak : Bool)
        → Reports sid (
            if weak
            then weak_cipher sid suite ∷ []
            else rule (not cinfo.is_aead) (non_aead_cipher sid suite cinfo.kind))
    weak_or_not true = (weak_cipher-IsReport sid suite, tt)
    weak_or_not false =
        rule-Reports sid (not cinfo.is_aead) _ (non_aead_cipher-IsReport sid suite cinfo.kind)

if-Reports :
    (sid : Text) (test : Bool) (fs : List Finding)
    → Reports sid fs
    → Reports sid (if test then fs else [])
if-Reports sid true fs h = h
if-Reports sid false fs h = tt

cipher_rules-Reports :
    (policy : Policy) (sid : Text) (tls : TlsInfo) → Reports sid (cipher_rules policy sid tls)
unfolding cipher_rules
cipher_rules-Reports policy sid tls =
    if-Reports sid
      (not (is_empty tls.cipher_suite) && not (text_eq tls.cipher_suite (codes "UNKNOWN"))) _
      (if-Reports sid
        (tls.server_hello_seen && not (is_unknown_type (classify_cipher tls.cipher_suite).kind)) _
        (suite_rules-Reports policy sid tls.cipher_suite (classify_cipher tls.cipher_suite)))

tls_rules-Reports :
    (policy : Policy) (sid : Text) (tls : TlsInfo) → Reports sid (tls_rules policy sid tls)
unfolding tls_rules version_rules
tls_rules-Reports policy sid tls =
    All-append (IsReport sid) _ _ (rule-Reports sid _ _ (version_finding-IsReport sid tls.version))
      (All-append (IsReport sid) _ _ (cipher_rules-Reports policy sid tls)
        (rule-Reports sid _ _ (handshake_failure-IsReport sid tls)))

module _ (format_date format_time : ℕ → Text) where
  expired_certificate-IsReport :
      (sid : Text) (cert : CertificateInfo)
      → IsReport sid (expired_certificate format_date format_time sid cert)
  unfolding expired_certificate
  expired_certificate-IsReport sid cert =
      make_finding-IsReport sid _ _ high _ _ _ _ (inr (inl refl))

  premature_certificate-IsReport :
      (sid : Text) (cert : CertificateInfo)
      → IsReport sid (premature_certificate format_date format_time sid cert)
  unfolding premature_certificate
  premature_certificate-IsReport sid cert =
      make_finding-IsReport sid _ _ high _ _ _ _ (inr (inl refl))

  certificate_rules-Reports :
      (policy : Policy) (sid : Text) (cert : CertificateInfo)
      → Reports sid (certificate_rules format_date format_time policy sid cert)
  unfolding certificate_rules
  certificate_rules-Reports policy sid cert =
      All-append (IsReport sid) _ _
        (rule-Reports sid cert.expired _ (expired_certificate-IsReport sid cert))
        (All-append (IsReport sid) _ _
          (rule-Reports sid cert.not_yet_valid _ (premature_certificate-IsReport sid cert))
          (All-append (IsReport sid) _ _
            (rule-Reports sid
              (text_eq cert.key_algorithm (codes "RSA")
                && ltb cert.key_bits policy.minimum_rsa_bits
                && ltb 0 cert.key_bits)
              _ (weak_key-IsReport sid cert.key_bits policy.minimum_rsa_bits))
            (rule-Reports sid
              (contains (to_upper cert.signature_algorithm) (codes "MD5")
                || contains (to_upper cert.signature_algorithm) (codes "SHA1"))
              _ (weak_signature-IsReport sid cert.signature_algorithm))))

  optional_tls-Reports :
      (policy : Policy) (sid : Text) (tls : Option TlsInfo)
      → Reports sid (optional_tls format_date format_time policy sid tls)
  unfolding optional_tls
  optional_tls-Reports policy sid none = tt
  optional_tls-Reports policy sid (some tls) = tls_rules-Reports policy sid tls

  optional_certificate-Reports :
      (policy : Policy) (sid : Text) (cert : Option CertificateInfo)
      → Reports sid (optional_certificate format_date format_time policy sid cert)
  unfolding optional_certificate
  optional_certificate-Reports policy sid none = tt
  optional_certificate-Reports policy sid (some cert) = certificate_rules-Reports policy sid cert

  -- Whatever the policy and the session, each finding of the assessment and its evidence name this
  -- session, are of high confidence, and have medium, high or critical severity.
  pub assess-Reports :
      (policy : Policy) (s : EmailSession) → Reports s.id (assess format_date format_time policy s)
  unfolding assess
  assess-Reports policy s = All-append (IsReport s.id) _ _ (start_tls_rules-Reports s) (
      All-append (IsReport s.id) _ _ (plaintext_rules-Reports s) (
        All-append (IsReport s.id) _ _ (optional_tls-Reports policy s.id s.tls)
          (optional_certificate-Reports policy s.id s.certificate)))
