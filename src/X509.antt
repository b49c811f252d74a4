-- ===== src/X509.antt =====
-- What the two certificate parsers read of a `crypto/x509` certificate. The package is not part of the
-- repository: its parser is an argument, `Bytes → Parse`, of the definitions that call it.
use secure_mail_scope_sih.Common.{ℕ, List, Text}

-- `x509.SignatureAlgorithm`, with the four values that the program names.
pub data SignatureAlgorithm : Type 0 where
  md2_with_rsa md5_with_rsa sha1_with_rsa ecdsa_with_sha1 : SignatureAlgorithm
  other_algorithm : SignatureAlgorithm

-- The dynamic type of `PublicKey`, with the sizes that the program reads.
pub data PublicKey : Type 0 where
  rsa_key : ℕ → PublicKey
  ecdsa_key : ℕ → PublicKey
  other_key : PublicKey

-- A parsed certificate; a name is what its `String()` prints, `raw_sha256` the digest of `Raw` in
-- hexadecimal.
pub record X509 : Type 0 where
  pub subject : Text
  pub issuer : Text
  pub serial_number : Text
  pub not_before : ℕ
  pub not_after : ℕ
  pub signature_algorithm : SignatureAlgorithm
  pub signature_algorithm_name : Text
  pub public_key : PublicKey
  pub public_key_algorithm_name : Text
  pub version : ℕ
  pub dns_names : List Text
  pub raw_sha256 : Text

-- A certificate, or the text of the error.
pub data Parse : Type 0 where
  parsed : X509 → Parse
  failed : Text → Parse
