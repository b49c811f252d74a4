-- ===== src/Analysis/Scores.antt =====
-- `severityToScore`, `populateFlatFields` and `computeScores` of backend/internal/analysis/service.go,
-- with the loop that rates the sessions again. A radar score is in tenths; risk scores are whole.
use secure_mail_scope_sih.Common.{
  ℕ, ◌+◌, Bool, true, false, ◌&&◌, ◌||◌, Option, none, some, List, [], ◌∷◌, ltb, ◌==◌,
  if◌then◌else◌, Text, codes, text_eq, contains, to_upper,
}
use secure_mail_scope_sih.Models.{
  Severity, info, low, medium, high, critical, Finding, TlsInfo, CertificateInfo,
  ForwardSecrecyStatus, fs_yes, fs_no, fs_unknown, SessionScores, EmailSession,
}

-- `severityToScore`
unfoldable pub severity_to_score : Severity → ℕ
severity_to_score critical = 9
severity_to_score high = 7
severity_to_score medium = 5
severity_to_score low = 3
severity_to_score _ = 1

-- The loop over the findings, from the greatest score so far and its severity.
unfoldable pub max_severity_from : ℕ → Severity → List Finding → ℕ × Severity
max_severity_from max_score max_sev [] = (max_score, max_sev)
max_severity_from max_score max_sev (f ∷ fs) =
    let greater = ltb max_score (severity_to_score f.severity) in
    max_severity_from (if greater then severity_to_score f.severity else max_score)
      (if greater then f.severity else max_sev) fs

-- "Compute risk score and severity from findings"
unfoldable pub max_severity : List Finding → ℕ × Severity
unfolding max_severity_from
max_severity = max_severity_from 0 info

tls_version_score : Text → ℕ
tls_version_score version =
    if text_eq version (codes "TLS 1.3")
    then 10
    else if text_eq version (codes "TLS 1.2")
    then 8
    else if text_eq version (codes "TLS 1.1")
    then 4
    else if text_eq version (codes "TLS 1.0")
    then 2
    else 0

cipher_score : Text → ℕ
cipher_score cipher =
    if contains cipher (codes "AES_256_GCM") || contains cipher (codes "CHACHA20")
    then 10
    else if contains cipher (codes "AES_128_GCM")
    then 9
    else if contains cipher (codes "AES_256_CBC")
    then 7
    else if contains cipher (codes "AES_128_CBC")
    then 6
    else if contains cipher (codes "3DES")
    then 2
    else if contains cipher (codes "RC4")
    then 1
    else 5

key_exchange_score : ForwardSecrecyStatus → ℕ
key_exchange_score fs_yes = 10
key_exchange_score fs_no = 2
key_exchange_score fs_unknown = 5

-- `math.Min`
at_most_score : ℕ → ℕ → ℕ
at_most_score bound n = if ltb bound n then bound else n

-- Whether a key is below the size that its algorithm wants.
unfoldable pub is_short_key : CertificateInfo → Bool
is_short_key cert =
    let alg = to_upper cert.key_algorithm in
    ltb 0 cert.key_bits
    && ((text_eq alg (codes "RSA") && ltb cert.key_bits 2048)
        || (text_eq alg (codes "ECDSA") && ltb cert.key_bits 256))

certificate_score : CertificateInfo → ℕ
certificate_score cert =
    let fresh = if cert.expired then at_most_score 1 10 else 10 in
    if is_short_key cert then at_most_score 3 fresh else fresh

signature_score : Text → ℕ
signature_score sig =
    if contains sig (codes "SHA256")
      || contains sig (codes "SHA384")
      || contains sig (codes "SHA512")
    then 10
    else if contains sig (codes "SHA1")
    then 3
    else if contains sig (codes "MD5")
    then 1
    else 5

score_tls : ForwardSecrecyStatus → Option TlsInfo → SessionScores → SessionScores
score_tls fs none scores = scores
score_tls fs (some tls) scores = record scores {
  tls_version = tls_version_score tls.version;
  cipher_strength = cipher_score (to_upper tls.cipher_suite);
  key_exchange = key_exchange_score fs;
}

score_certificate : Option CertificateInfo → SessionScores → SessionScores
score_certificate none scores = record scores { certificate = 5; signature_algorithm = 5 }
score_certificate (some cert) scores = record scores {
  certificate = certificate_score cert;
  signature_algorithm = signature_score (to_upper cert.signature_algorithm);
}

-- `computeScores`
unfoldable pub compute_scores : EmailSession → SessionScores
unfolding score_tls score_certificate tls_version_score cipher_score key_exchange_score
    certificate_score signature_score at_most_score is_short_key
compute_scores s = score_certificate s.certificate (
    score_tls s.forward_secrecy s.tls (record {
      tls_version = 0;
      cipher_strength = 0;
      key_exchange = 0;
      certificate = 0;
      signature_algorithm = 0;
    }))

-- What stands behind the last byte `b`, or the candidate where there is none.
last_go : ℕ → Text → Text → Text
last_go b candidate [] = candidate
last_go b candidate (c ∷ s) = last_go b (if c == b then s else candidate) s

-- The last part of `strings.Split(s, "-")`
unfoldable pub last_part : Text → Text
unfolding last_go
last_part s = last_go b'-' s s

unfoldable pub is_fs_yes : ForwardSecrecyStatus → Bool
is_fs_yes fs_yes = true
is_fs_yes _ = false

flat_tls : Option TlsInfo → EmailSession → EmailSession
flat_tls none s = s
flat_tls (some tls) s = record s {
  tls_version = tls.version;
  negotiated_cipher = tls.cipher_suite;
  signature_algorithm = tls.signature_algorithm;
}

-- `populateFlatFields`
unfoldable pub populate_flat_fields : EmailSession → EmailSession
unfolding is_fs_yes flat_tls
populate_flat_fields s =
    let named = record s {
      session_id = last_part s.id;
      src_ip = s.client.ip;
      dst_ip = s.server.ip;
    } in
    let flat = flat_tls s.tls named in
    let (risk_score, severity) = max_severity s.findings in
    record flat {
      has_forward_secrecy = is_fs_yes s.forward_secrecy;
      risk_score = risk_score;
      severity = severity;
      scores = compute_scores s;
    }

-- "Recalculate max severity and save sessions": the sessions rated again, and the sum of the scores.
unfoldable pub rate_sessions : List EmailSession → List EmailSession × ℕ
rate_sessions [] = ([], 0)
rate_sessions (s ∷ ss) =
    let (rated, total) = rate_sessions ss in
    let (risk_score, severity) = max_severity s.findings in
    (record s { risk_score = risk_score; severity = severity } ∷ rated, risk_score + total)
