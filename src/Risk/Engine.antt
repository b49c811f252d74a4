-- ===== src/Risk/Engine.antt =====
-- `Assess` of backend/internal/risk/engine.go, rule by rule. A rule is the list of the findings that
-- it appends, and `assess` runs the rules in the order of the source.
use secure_mail_scope_sih.Common.{
  ℕ, Bool, true, false, not, ◌&&◌, ◌||◌, Option, none, some, List, [], ◌∷◌, ◌++◌, ltb,
  if◌then◌else◌, any, Text, codes, text_eq, is_empty, has_prefix, contains, to_upper,
}
use secure_mail_scope_sih.Models.{
  StartTlsState, start_tls_not_used, ProtocolEvent, TlsInfo, CertificateInfo, Finding, EmailSession,
}
use secure_mail_scope_sih.Risk.Cipher.{CipherType, cipher_unknown, CipherInfo, classify_cipher}
use secure_mail_scope_sih.Risk.Policy.{Policy}
use secure_mail_scope_sih.Risk.Findings.{
  start_tls_not_requested, start_tls_rejected, plaintext_session, version_finding, weak_cipher,
  non_aead_cipher, no_forward_secrecy, handshake_failure, weak_key, weak_signature,
  expired_certificate, premature_certificate,
}

-- `if test { findings = append(findings, f) }`
abbrev pub rule : Bool → Finding → List Finding
rule test f = if test then f ∷ [] else []

unfoldable pub start_tls_rules : EmailSession → List Finding
start_tls_rules s =
    rule (s.start_tls.supported && not s.start_tls.requested) (start_tls_not_requested s.id)
    ++ rule (s.start_tls.requested && not s.start_tls.accepted_flag)
        (start_tls_rejected s.id s.start_tls.response_code)

unfoldable pub is_not_used : StartTlsState → Bool
is_not_used start_tls_not_used = true
is_not_used _ = false

-- Whether a command is one that authenticates.
unfoldable pub is_auth_command : ProtocolEvent → Bool
is_auth_command e =
    let cmd = to_upper e.command in
    has_prefix cmd (codes "AUTH") || has_prefix cmd (codes "LOGIN") || has_prefix cmd (codes "PASS")

unfoldable pub has_events : List ProtocolEvent → Bool
has_events [] = false
has_events (e ∷ es) = true

unfoldable pub plaintext_rules : EmailSession → List Finding
unfolding has_events is_not_used
plaintext_rules s =
    rule (is_not_used s.start_tls.state && has_events s.protocol_events)
      (plaintext_session s.id (any is_auth_command s.protocol_events))

unfoldable pub version_rules : Policy → Text → TlsInfo → List Finding
version_rules policy sid tls =
    rule (not (any (text_eq tls.version) policy.allowed_tls_versions) && not (is_empty tls.version))
      (version_finding sid tls.version)

unfoldable pub is_unknown_type : CipherType → Bool
is_unknown_type cipher_unknown = true
is_unknown_type _ = false

-- The findings on a suite with sufficient evidence.
unfoldable pub suite_rules : Policy → Text → Text → CipherInfo → List Finding
suite_rules policy sid suite cinfo =
    (if cinfo.is_weak
      then weak_cipher sid suite ∷ []
      else rule (not cinfo.is_aead) (non_aead_cipher sid suite cinfo.kind))
    ++ rule (policy.require_forward_secrecy && not cinfo.is_pfs)
        (no_forward_secrecy sid suite cinfo.key_exchange_alg)

unfoldable pub cipher_rules : Policy → Text → TlsInfo → List Finding
unfolding is_unknown_type
cipher_rules policy sid tls =
    if not (is_empty tls.cipher_suite) && not (text_eq tls.cipher_suite (codes "UNKNOWN"))
    then (let cinfo = classify_cipher tls.cipher_suite in
        if tls.server_hello_seen && not (is_unknown_type cinfo.kind)
        then suite_rules policy sid tls.cipher_suite cinfo
        else [])
    else []

-- "TLS Handshake Rules", of a session with TLS
unfoldable pub tls_rules : Policy → Text → TlsInfo → List Finding
tls_rules policy sid tls =
    version_rules policy sid tls
    ++ (cipher_rules policy sid tls
        ++ rule (ltb 0 tls.alert_count || tls.handshake_failed) (handshake_failure sid tls))

module _ (format_date format_time : ℕ → Text) where
  -- "Certificate Rules", of a session with a certificate
  unfoldable pub certificate_rules : Policy → Text → CertificateInfo → List Finding
  certificate_rules policy sid cert =
      let sig_alg = to_upper cert.signature_algorithm in
      rule cert.expired (expired_certificate format_date format_time sid cert)
      ++ (rule cert.not_yet_valid (premature_certificate format_date format_time sid cert)
          ++ (rule
                (text_eq cert.key_algorithm (codes "RSA")
                  && ltb cert.key_bits policy.minimum_rsa_bits
                  && ltb 0 cert.key_bits)
                (weak_key sid cert.key_bits policy.minimum_rsa_bits)
              ++ rule (contains sig_alg (codes "MD5") || contains sig_alg (codes "SHA1"))
                  (weak_signature sid cert.signature_algorithm)))

  unfoldable pub optional_tls : Policy → Text → Option TlsInfo → List Finding
  optional_tls policy sid none = []
  optional_tls policy sid (some tls) = tls_rules policy sid tls

  unfoldable pub optional_certificate : Policy → Text → Option CertificateInfo → List Finding
  optional_certificate policy sid none = []
  optional_certificate policy sid (some cert) = certificate_rules policy sid cert

  -- `Assess`
  unfoldable pub assess : Policy → EmailSession → List Finding
  assess policy s =
      start_tls_rules s
      ++ (plaintext_rules s
          ++ (optional_tls policy s.id s.tls ++ optional_certificate policy s.id s.certificate))
