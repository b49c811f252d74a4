-- ===== src/Certificate.antt =====
-- backend/internal/certificate/parser.go. `x509.ParseCertificate`, `pem.Decode` and `hex.DecodeString`
-- are arguments, and so is the instant of `time.Now`.
pub mod Agreement
use secure_mail_scope_sih.Common.{
  ℕ, Option, none, some, List, [], ◌∷◌, ◌++◌, ltb, ◌==◌, if◌then◌else◌, Text, codes, Bytes,
}
use secure_mail_scope_sih.Models.{CertificateInfo}
use secure_mail_scope_sih.X509.{
  X509, Parse, parsed, failed, PublicKey, rsa_key, ecdsa_key, other_key,
}

-- `extractPublicKeyDetails`
unfoldable pub extract_public_key_details : PublicKey → Text × ℕ
extract_public_key_details (rsa_key bits) = (codes "RSA", bits)
extract_public_key_details (ecdsa_key bits) = (codes "ECDSA", bits)
extract_public_key_details other_key = (codes "Unknown", 0)

-- `AnalyzeCertificate`
unfoldable pub analyze_certificate : ℕ → X509 → CertificateInfo
unfolding extract_public_key_details
analyze_certificate now cert =
    let (key_alg, key_bits) = extract_public_key_details cert.public_key in
    record {
      subject = cert.subject;
      issuer = cert.issuer;
      serial_number = cert.serial_number;
      not_before = cert.not_before;
      not_after = cert.not_after;
      key_algorithm = key_alg;
      key_bits = key_bits;
      signature_algorithm = cert.signature_algorithm_name;
      dns_names = cert.dns_names;
      expired = ltb cert.not_after now;
      not_yet_valid = ltb now cert.not_before;
      chain_verified = none;
      hostname_verified = none;
      parse_error = [];
      fingerprint = cert.raw_sha256;
    }

-- A certificate, or the text of the error.
pub data CertificateResult : Type 0 where
  ok : CertificateInfo → CertificateResult
  err : Text → CertificateResult

unfoldable pub analyzed : ℕ → Parse → CertificateResult
analyzed now (parsed cert) = ok (analyze_certificate now cert)
analyzed now (failed text) = err (codes "failed to parse X.509 certificate DER: " ++ text)

module _ (parse : Bytes → Parse) (now : ℕ) where
  -- `ParseRawDER`
  unfoldable pub parse_raw_der : Bytes → CertificateResult
  unfolding analyzed
  parse_raw_der der = analyzed now (parse der)

  -- `ParsePEM`; `pem.Decode` yields the bytes of a block.
  unfoldable pub parse_pem : (Bytes → Option Bytes) → Bytes → CertificateResult
  parse_pem pem_decode pem_bytes = elim (pem_decode pem_bytes) [
    | none ↦ err (codes "failed to decode PEM block")
    | some block ↦ parse_raw_der block
  ]

  -- `strings.ReplaceAll(s, ":", "")`
  unfoldable pub without_colons : Text → Text
  without_colons [] = []
  without_colons (c ∷ s) = let rest = without_colons s in if c == b':' then rest else c ∷ rest

  -- `ParseHexStrings`: only the first certificate is read.
  unfoldable pub parse_hex_strings : (Text → Option Bytes) → List Text → CertificateResult
  parse_hex_strings hex_decode [] = err (codes "no certificates provided")
  parse_hex_strings hex_decode (leaf ∷ others) = elim (hex_decode (without_colons leaf)) [
    | none ↦ err (codes "failed to decode hex cert")
    | some der ↦ parse_raw_der der
  ]
