-- ===== src/Risk/Policy.antt =====
-- `Policy` and `DefaultPolicy` of backend/internal/risk/engine.go.
use secure_mail_scope_sih.Common.{ℕ, Bool, true, List, [], ◌∷◌, Text, codes}

pub record Policy : Type 0 where
  pub allowed_tls_versions : List Text
  pub minimum_rsa_bits : ℕ
  pub minimum_ecdsa_bits : ℕ
  pub require_forward_secrecy : Bool
  pub reject_expired_certificates : Bool

unfoldable pub default_policy : Policy
default_policy = record {
  allowed_tls_versions = codes "TLS 1.2" ∷ codes "TLS 1.3" ∷ [];
  minimum_rsa_bits = 2048;
  minimum_ecdsa_bits = 256;
  require_forward_secrecy = true;
  reject_expired_certificates = true;
}
