-- ===== src/Certificate/Agreement.antt =====
-- What the certificate rules of backend/internal/risk/engine.go say of a certificate that
-- backend/internal/certificate/parser.go reads, against what the stream parser,
-- `ParseDERCertificate` of parser/internal/tlsparser/handshake.go, says of the same bytes.
use secure_mail_scope_sih.Common.{
  ℕ, ◌≡◌, refl, Bool, true, false, not, ◌&&◌, ◌||◌, ◌++◌, ltb, Text, codes, text_eq, has_prefix,
  contains, to_upper, Bytes,
}
use secure_mail_scope_sih.Models.{CertificateInfo}
use secure_mail_scope_sih.X509.{
  X509, Parse, parsed, PublicKey, rsa_key, ecdsa_key, other_key, SignatureAlgorithm, md2_with_rsa,
  md5_with_rsa, sha1_with_rsa, ecdsa_with_sha1, other_algorithm,
}
use secure_mail_scope_sih.Handshake.Types.{CertInfo}
use secure_mail_scope_sih.Handshake.Certificates.{
  public_key_analysis, is_weak_signature_algorithm, info_of, cert_info, parse_der_certificate,
}
use secure_mail_scope_sih.Risk.Policy.{default_policy}
use secure_mail_scope_sih.Risk.Findings.{
  expired_certificate, premature_certificate, weak_key, weak_signature,
}
use secure_mail_scope_sih.Risk.Engine.{rule, certificate_rules}
use secure_mail_scope_sih.Certificate.{
  ok, extract_public_key_details, analyze_certificate, analyzed, parse_raw_der,
}

-- The names that `x509.SignatureAlgorithm` documents for the algorithms that the stream parser calls weak
abbrev pub IsDocumented : SignatureAlgorithm → Text → Type 0
IsDocumented algorithm name =
    (algorithm ≡ md2_with_rsa → name ≡ codes "MD2-RSA")
    × (algorithm ≡ md5_with_rsa → name ≡ codes "MD5-RSA")
    × (algorithm ≡ sha1_with_rsa → name ≡ codes "SHA1-RSA")
    × (algorithm ≡ ecdsa_with_sha1 → name ≡ codes "ECDSA-SHA1")

abbrev pub is_md2 : SignatureAlgorithm → Bool
is_md2 md2_with_rsa = true
is_md2 _ = false

-- The test of the rule SIG-001
abbrev pub names_weak_hash : Text → Bool
names_weak_hash name =
    contains (to_upper name) (codes "MD5") || contains (to_upper name) (codes "SHA1")

-- What the backend reports of the certificate, by the verdicts of the stream parser: the dates as they are,
-- a weak key where its bits are known, and a weak signature unless it is MD2.
pub record Agrees (format_date format_time : ℕ → Text) (sid : Text) (now : ℕ) (cert : X509)
    (i : CertInfo) (c : CertificateInfo) : Type 0 where
  pub same_findings :
      certificate_rules format_date format_time default_policy sid c
      ≡ rule i.is_expired (expired_certificate format_date format_time sid c)
        ++ (rule (ltb now i.not_before) (premature_certificate format_date format_time sid c)
            ++ (rule
                  (i.is_weak_key && ltb 0 i.public_key_bit_length)
                  (weak_key sid c.key_bits default_policy.minimum_rsa_bits)
                ++ rule
                    (names_weak_hash i.signature_algorithm)
                    (weak_signature sid c.signature_algorithm)))
  pub weak_signature_named :
      i.is_weak_signature ≡ true
      → names_weak_hash i.signature_algorithm ≡ not (is_md2 cert.signature_algorithm)

weakness :
    (cert : X509) (key : PublicKey)
    → let d = extract_public_key_details key in
      let k = public_key_analysis cert key in
      (text_eq d.0 (codes "RSA") && ltb d.1 default_policy.minimum_rsa_bits && ltb 0 d.1)
      ≡ (k.2 && ltb 0 k.1)
unfolding extract_public_key_details public_key_analysis default_policy text_eq codes
weakness cert (rsa_key bits) = refl
weakness cert (ecdsa_key bits) = refl
weakness cert other_key = refl

signature :
    (algorithm : SignatureAlgorithm) (name : Text)
    → IsDocumented algorithm name
    → is_weak_signature_algorithm algorithm ≡ true
    → names_weak_hash name ≡ not (is_md2 algorithm)
unfolding is_weak_signature_algorithm contains has_prefix to_upper codes
signature md2_with_rsa name h w = rw (h.0 refl) refl
signature md5_with_rsa name h w = rw (h.1 refl) refl
signature sha1_with_rsa name h w = rw (h.2 refl) refl
signature ecdsa_with_sha1 name h w = rw (h.3 refl) refl
signature other_algorithm name h w = cc

-- Where the bytes of a certificate parse, the backend reads a certificate of which its rules, under the
-- default policy, report exactly what the stream parser says of the same bytes at the same instant: the
-- expiry if it has expired, a start in the future, and a weak key if the key is weak and its length is above 0. If the
-- algorithms have their documented names, a signature that the stream parser calls weak is reported as
-- weak, but not one with MD2.
pub parse_raw_der-Agrees :
    (format_date format_time : ℕ → Text) (sid : Text) (parse : Bytes → Parse) (now : ℕ)
    (der : Bytes) (cert : X509)
    → parse der ≡ parsed cert
    → IsDocumented cert.signature_algorithm cert.signature_algorithm_name
    → (c : CertificateInfo) × (parse_raw_der parse now der ≡ ok c)
      × Agrees format_date format_time sid now cert (parse_der_certificate parse now der) c
unfolding parse_raw_der analyze_certificate analyzed parse_der_certificate info_of cert_info
    certificate_rules
parse_raw_der-Agrees format_date format_time sid parse now der cert e documented = (
  analyze_certificate now cert,
  rw e refl,
  rw e (record {
    same_findings = rw (weakness cert cert.public_key) refl;
    weak_signature_named =
        signature cert.signature_algorithm cert.signature_algorithm_name documented;
  }),
)
