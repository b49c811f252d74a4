-- ===== src/Handshake/Certificates.antt =====
-- `ParseDERCertificate` and `parseCertificateMessage` of parser/internal/tlsparser/handshake.go.
use secure_mail_scope_sih.Common.{
  ℕ, zero, suc, ◌+◌, ◌-◌, Bool, true, false, Option, none, some, List, [], ◌∷◌, ◌++◌, ltb, leb,
  if◌then◌else◌, length, Text, codes, text_eq, Bytes, Go, returns, unfinished, ◌>>=◌, slice,
  uint24_at,
}
use secure_mail_scope_sih.X509.{
  X509, Parse, parsed, failed, SignatureAlgorithm, other_algorithm, PublicKey, rsa_key,
}
use secure_mail_scope_sih.Handshake.Types.{CertInfo, ParseError, certificate_too_short}

-- `weakSigAlgos[cert.SignatureAlgorithm]`
unfoldable pub is_weak_signature_algorithm : SignatureAlgorithm → Bool
is_weak_signature_algorithm other_algorithm = false
is_weak_signature_algorithm _ = true

-- The `switch` on the public key: its algorithm, its bit length and whether it is weak.
unfoldable pub public_key_analysis : X509 → PublicKey → Text × ℕ × Bool
public_key_analysis cert (rsa_key bits) = (codes "RSA", bits, ltb bits 2048)
public_key_analysis cert _ = (cert.public_key_algorithm_name, 0, false)

-- What `ParseDERCertificate` fills in of a certificate that parses, at the instant `now`.
unfoldable pub cert_info : ℕ → X509 → CertInfo
cert_info now cert =
    let (algorithm, bits, weak) = public_key_analysis cert cert.public_key in
    record {
      subject = cert.subject;
      issuer = cert.issuer;
      serial_number = cert.serial_number;
      not_before = cert.not_before;
      not_after = cert.not_after;
      public_key_algorithm = algorithm;
      public_key_bit_length = bits;
      signature_algorithm = cert.signature_algorithm_name;
      is_self_signed = text_eq cert.subject cert.issuer;
      is_expired = ltb cert.not_after now;
      is_weak_key = weak;
      is_weak_signature = is_weak_signature_algorithm cert.signature_algorithm;
      dns_names = cert.dns_names;
      version = cert.version;
    }

-- The `CertInfo` of a certificate that does not parse.
unfoldable pub parse_failure : Text → CertInfo
parse_failure err = record {
  subject = codes "Parse error: " ++ err;
  issuer = [];
  serial_number = [];
  not_before = 0;
  not_after = 0;
  public_key_algorithm = [];
  public_key_bit_length = 0;
  signature_algorithm = [];
  is_self_signed = false;
  is_expired = false;
  is_weak_key = false;
  is_weak_signature = false;
  dns_names = [];
  version = 0;
}

unfoldable pub info_of : ℕ → Parse → CertInfo
info_of now (parsed cert) = cert_info now cert
info_of now (failed err) = parse_failure err

-- `ParseDERCertificate`, with `x509.ParseCertificate` and the instant of the call as arguments.
unfoldable pub parse_der_certificate : (Bytes → Parse) → ℕ → Bytes → CertInfo
unfolding info_of cert_info parse_failure public_key_analysis
parse_der_certificate parse now der = info_of now (parse der)

-- The loop over the certificates of the message.
unfoldable pub certificates_loop :
    (Bytes → CertInfo) → ℕ → Bytes → ℕ → ℕ → List CertInfo → Go (List CertInfo)
certificates_loop info zero d cert_end offset acc = unfinished
certificates_loop info (suc f) d cert_end offset acc = elim (leb (offset + 3) cert_end) [
  | true ↦ do
    cert_len ← uint24_at d offset
    elim (ltb cert_end (offset + 3 + cert_len)) [
      | true ↦ returns acc
      | false ↦ do
        cert_der ← slice d (offset + 3) (offset + 3 + cert_len)
        certificates_loop info f d cert_end (offset + 3 + cert_len) (acc ++ info cert_der ∷ [])
    ]
  | false ↦ returns acc
]

-- `parseCertificateMessage`: the certificates collected so far, with those of the message, and the
-- error returned.
unfoldable pub parse_certificate_message :
    (Bytes → CertInfo) → Bytes → List CertInfo → Go (List CertInfo × Option ParseError)
parse_certificate_message info d certificates =
    if ltb (length d) 3 then returns (certificates, some certificate_too_short) else do
      total_len ← uint24_at d 0
      let bounded = if ltb (length d - 3) total_len then length d - 3 else total_len
      certificates' ← certificates_loop info (length d) d (3 + bounded) 3 certificates
      returns (certificates', none)
