-- ===== src/Risk/Findings.antt =====
-- The findings of `Assess` of backend/internal/risk/engine.go, each a function of what its text cites.
-- How package time prints an instant is an argument: `format_date` for `Format("2006-01-02")`,
-- `format_time` for `%s`.
use secure_mail_scope_sih.Common.{
  ℕ, Bool, true, false, ◌||◌, [], ◌++◌, if◌then◌else◌, Text, codes, text_eq, decimal,
}
use secure_mail_scope_sih.Models.{
  Severity, medium, high, critical, TlsInfo, CertificateInfo, Finding,
}
use secure_mail_scope_sih.Risk.Cipher.{CipherType, cipher_type_text}

-- `models.Finding{...}`: every finding has high confidence and the evidence of one capture.
unfoldable pub make_finding : Text → Text → Text → Severity → Text → Text → Text → Text → Finding
make_finding sid rule title severity category description details recommendation = record {
  id = rule ++ sid;
  title = title;
  severity = severity;
  category = category;
  session_id = sid;
  description = description;
  confidence = codes "HIGH";
  evidence = record {
    packet_numbers = [];
    session_id = sid;
    pcap = codes "capture.pcap";
    details = details;
  };
  recommendation = recommendation;
}

unfoldable pub start_tls_not_requested : Text → Finding
start_tls_not_requested sid =
    make_finding sid (codes "STARTTLS-001-") (codes "STARTTLS Supported But Not Requested") high
      (codes "STARTTLS")
      (codes
        "The email server advertised STARTTLS encryption capability, but the client failed to send the STARTTLS upgrade command.")
      (codes "Server EHLO response included 250-STARTTLS, No STARTTLS command in client stream")
      (codes
        "Configure the email client to enforce mandatory STARTTLS encryption (Opportunistic or Strict TLS).")

unfoldable pub start_tls_rejected : Text → Text → Finding
start_tls_rejected sid response_code =
    make_finding sid (codes "STARTTLS-002-") (codes "STARTTLS Upgrade Request Rejected") critical
      (codes "STARTTLS")
      (codes
        "The email client requested STARTTLS upgrade, but the server rejected or returned an error response.")
      (codes "STARTTLS response code: " ++ response_code)
      (codes "Inspect server STARTTLS configuration and TLS certificate setup on port 587/143/110.")

unfoldable pub plaintext_session : Text → Bool → Finding
plaintext_session sid has_auth =
    make_finding sid (codes "PLAINTEXT-001-")
      (if has_auth then codes "Plaintext Authentication Detected" else codes "Plaintext Session")
      (if has_auth then critical else high) (codes "PROTOCOL")
      (codes "The session communicated in plaintext without upgrading to TLS.")
      (codes "STARTTLS not negotiated successfully before commands")
      (codes
        "Enforce TLS for all mail sessions, especially those sending authentication credentials.")

unfoldable pub version_finding : Text → Text → Finding
version_finding sid version =
    make_finding sid (codes "TLS-001-") (codes "Deprecated or Non-Compliant TLS Version")
      (if text_eq version (codes "TLS 1.0") || text_eq version (codes "TLS 1.1")
        then critical
        else high)
      (codes "TLS")
      (codes "The connection negotiated "
        ++ (version ++ codes ", which is deprecated under security policy."))
      (codes "Negotiated TLS Version: " ++ version)
      (codes "Disable TLS 1.0 and TLS 1.1 on the mail server. Require TLS 1.2 or TLS 1.3.")

unfoldable pub weak_cipher : Text → Text → Finding
weak_cipher sid suite =
    make_finding sid (codes "CIPHER-001-") (codes "Obsolete/Weak Cipher Suite Negotiated") critical
      (codes "CIPHER")
      (codes "The negotiated cipher suite "
        ++ (suite ++ codes " relies on broken or vulnerable cryptographic primitives."))
      (codes "Cipher Suite: " ++ suite)
      (codes
        "Reconfigure cipher suites to include only AES-GCM, CHACHA20-POLY1305, and modern AEAD ciphers.")

unfoldable pub non_aead_cipher : Text → Text → CipherType → Finding
non_aead_cipher sid suite kind =
    make_finding sid (codes "CIPHER-002-") (codes "Non-AEAD Cipher Negotiated") medium
      (codes "CIPHER")
      (codes "The cipher "
        ++ (suite
            ++ codes
                " is not an Authenticated Encryption with Associated Data (AEAD) cipher, which is less robust against tampering."))
      (codes "Cipher Suite: " ++ (suite ++ (codes " is type " ++ cipher_type_text kind)))
      (codes "Prioritize AEAD ciphers like GCM or CHACHA20-POLY1305.")

unfoldable pub no_forward_secrecy : Text → Text → Text → Finding
no_forward_secrecy sid suite exchange =
    make_finding sid (codes "FS-001-") (codes "Lack of Perfect Forward Secrecy (PFS)") medium
      (codes "KEY_EXCHANGE")
      (codes
        "The negotiated session cipher does not support Perfect Forward Secrecy, exposing past recorded traffic to decryption if long-term RSA keys are compromised.")
      (codes "Cipher: " ++ (suite ++ (codes ", Key Exchange: " ++ exchange)))
      (codes "Configure server key exchange algorithms to prioritize ECDHE or DHE key exchange.")

bool_text : Bool → Text
bool_text true = codes "true"
bool_text false = codes "false"

unfoldable pub handshake_failure : Text → TlsInfo → Finding
unfolding bool_text
handshake_failure sid tls =
    make_finding sid (codes "TLS-FAIL-001-") (codes "TLS Handshake Failure / Alert") high
      (codes "TLS") (codes "The TLS handshake failed or generated alert messages.")
      (codes "Alert Count: "
        ++ (decimal tls.alert_count
            ++ (codes ", Handshake Failed: " ++ bool_text tls.handshake_failed)))
      (codes
        "Investigate TLS connectivity issues, possible certificate trust errors on client, or incompatible ciphers.")

unfoldable pub weak_key : Text → ℕ → ℕ → Finding
weak_key sid bits minimum =
    make_finding sid (codes "KEY-001-") (codes "Weak RSA Key Size") high (codes "CERTIFICATE")
      (codes "The certificate public key is an RSA "
        ++ (decimal bits
            ++ (codes "-bit key, below the required minimum of "
                ++ (decimal minimum ++ codes " bits."))))
      (codes "Public Key: RSA " ++ (decimal bits ++ codes " bits"))
      (codes
        "Re-issue certificate with an RSA key size of at least 2048 bits or switch to ECDSA (P-256/P-384).")

unfoldable pub weak_signature : Text → Text → Finding
weak_signature sid algorithm =
    make_finding sid (codes "SIG-001-") (codes "Weak Certificate Signature Algorithm") critical
      (codes "CERTIFICATE")
      (codes "The certificate uses a weak signature algorithm ("
        ++ (algorithm ++ codes ") susceptible to collision attacks."))
      (codes "Signature Algorithm: " ++ algorithm)
      (codes "Re-issue certificate using SHA-256 or stronger.")

module _ (format_date format_time : ℕ → Text) where
  unfoldable pub expired_certificate : Text → CertificateInfo → Finding
  expired_certificate sid cert =
      make_finding sid (codes "CERT-001-") (codes "Expired X.509 Certificate") high
        (codes "CERTIFICATE")
        (codes "The server presented an X.509 certificate that expired on "
          ++ (format_date cert.not_after ++ codes "."))
        (codes "NotAfter: "
          ++ (format_time cert.not_after ++ (codes ", Subject: " ++ cert.subject)))
        (codes "Renew and deploy a valid, non-expired X.509 TLS certificate.")

  unfoldable pub premature_certificate : Text → CertificateInfo → Finding
  premature_certificate sid cert =
      make_finding sid (codes "CERT-002-") (codes "Certificate Not Yet Valid") high
        (codes "CERTIFICATE")
        (codes "The server presented an X.509 certificate whose validity start date ("
          ++ (format_date cert.not_before ++ codes ") is in the future."))
        (codes "NotBefore: " ++ format_time cert.not_before)
        (codes
          "Ensure system clocks are synchronized via NTP and check certificate validity issuance period.")
