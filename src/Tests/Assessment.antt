-- ===== src/Tests/Assessment.antt =====
-- The rules, the scores, the queue and the router on small inputs.
use secure_mail_scope_sih.Common.{
  ℕ, ◌≡◌, refl, ◌≢◌, ◌⊎◌, true, false, not, ◌&&◌, none, some, List, [], ◌∷◌, ◌++◌, if◌then◌else◌,
  Text, codes, text_eq, is_empty, has_prefix, contains, to_upper, decimal,
}
use secure_mail_scope_sih.Models.{
  fs_no, smtp, info, Finding, TlsInfo, EmailSession, start_tls_not_used,
}
use secure_mail_scope_sih.Common.{any}
use secure_mail_scope_sih.Models.{critical, client_to_server}
use secure_mail_scope_sih.Risk.Engine.{is_auth_command}
use secure_mail_scope_sih.Analysis.Scores.{populate_flat_fields}
use secure_mail_scope_sih.Analysis.Exposure.{populate_flat_fields-assess}
use secure_mail_scope_sih.Inspect.Values.{assess_forward_secrecy}
use secure_mail_scope_sih.Inspect.Secrecy.{assess_forward_secrecy-classify_cipher}
use secure_mail_scope_sih.Risk.Policy.{default_policy}
use secure_mail_scope_sih.Risk.Cipher.{
  cipher_block, classify_exchange, classify_tls13, classify_kind, classify_size, classify_weak,
  is_tls13_cipher, unclassified, classify_cipher, cipher_unknown,
}
use secure_mail_scope_sih.Risk.Findings.{plaintext_session, weak_cipher, no_forward_secrecy}
use secure_mail_scope_sih.Risk.Engine.{rule, cipher_rules, assess}
use secure_mail_scope_sih.Risk.Coverage.{cipher_rules_lem, cipher_rules-untyped}
use secure_mail_scope_sih.Risk.Reports.{Reports, assess-Reports}
use secure_mail_scope_sih.Analysis.Scores.{max_severity, severity_to_score}
use secure_mail_scope_sih.Analysis.Rating.{IsBound, Occurs, max_severity_lem}
use secure_mail_scope_sih.Analysis.Queue.{new_ai_queue}
use secure_mail_scope_sih.Analysis.Backpressure.{Op, put, take_one, ops, IsFifo, queue-IsFifo}
use secure_mail_scope_sih.Analysis.Router.{Settings, Probe, get_active_provider, new_ai_router}
use secure_mail_scope_sih.Analysis.Failover.{checked, usable, get_active_provider-checked}

abbrev pub sid : Text
sid = codes "session-1"

abbrev pub tls_of : Text → TlsInfo
tls_of suite = record {
  version = codes "TLS 1.2";
  cipher_suite = suite;
  server_name = [];
  alpn = [];
  key_exchange_group = [];
  signature_algorithm = [];
  alert_count = 0;
  stream_id = 0;
  client_ip = [];
  client_port = 0;
  server_ip = [];
  server_port = 0;
  tls_observed = true;
  server_hello_seen = true;
  certificate_seen = false;
  handshake_failed = false;
  handshake_completed = true;
  app_data_observed = true;
  raw_certificates = [];
}

abbrev cbc_suite : Text
cbc_suite = codes "TLS_RSA_WITH_AES_128_CBC_SHA"

abbrev null_suite : Text
null_suite = codes "TLS_RSA_WITH_NULL_SHA256"

cbc_suite-kind : (classify_cipher cbc_suite).kind ≡ cipher_block
unfolding classify_cipher classify_exchange classify_tls13 classify_kind classify_size classify_weak
    is_tls13_cipher unclassified contains has_prefix codes to_upper text_eq
cbc_suite-kind = refl

cbc_suite-typed : (classify_cipher cbc_suite).kind ≢ cipher_unknown
cbc_suite-typed e = cc (cbc_suite-kind, e)

cipher_rules_lem_example :
    cipher_rules default_policy sid (tls_of cbc_suite)
    ≡ rule (classify_cipher cbc_suite).is_weak (weak_cipher sid cbc_suite)
      ++ rule
          (default_policy.require_forward_secrecy && not (classify_cipher cbc_suite).is_pfs)
          (no_forward_secrecy sid cbc_suite (classify_cipher cbc_suite).key_exchange_alg)
unfolding is_empty codes text_eq
cipher_rules_lem_example =
    cipher_rules_lem default_policy sid (tls_of cbc_suite) refl refl refl cbc_suite-typed

cipher_rules-untyped_example : cipher_rules default_policy sid (tls_of null_suite) ≡ []
unfolding contains to_upper codes has_prefix
cipher_rules-untyped_example =
    cipher_rules-untyped default_policy sid (tls_of null_suite) (refl, refl, refl, refl, refl)

abbrev pub plain_session : EmailSession
plain_session = record {
  id = sid;
  analysis_id = [];
  client = record { ip = codes "10.0.0.1"; port = 50000 };
  server = record { ip = codes "10.0.0.2"; port = 25 };
  protocol = smtp;
  start_time = 1;
  end_time = 2;
  packet_count = 4;
  client_bytes = 10;
  server_bytes = 20;
  stream_complete = true;
  reassembly_gap = false;
  start_tls = record {
    state = start_tls_not_used;
    supported = false;
    requested = false;
    accepted_flag = false;
    tls_started = false;
    tls_established = false;
    response_code = [];
  };
  tls = some (tls_of null_suite);
  certificate = none;
  forward_secrecy = fs_no;
  findings = [];
  protocol_events = [];
  session_id = [];
  src_ip = [];
  dst_ip = [];
  tls_version = [];
  negotiated_cipher = [];
  signature_algorithm = [];
  risk_score = 0;
  severity = info;
  has_forward_secrecy = false;
  is_anomalous = false;
  anomaly_score = [];
  scores = record {
    tls_version = 0;
    cipher_strength = 0;
    key_exchange = 0;
    certificate = 0;
    signature_algorithm = 0;
  };
  remediations = [];
  ai_assessment = [];
  ai_assessment_structured = none;
}

assess-Reports_example : Reports sid (assess decimal decimal default_policy plain_session)
assess-Reports_example = assess-Reports decimal decimal default_policy plain_session

abbrev auth_session : EmailSession
auth_session = record plain_session {
  protocol_events =
      record {
        timestamp = 1;
        direction = client_to_server;
        command = codes "AUTH <redacted>";
        response = [];
      }
      ∷ [];
}

abbrev assessed_auth : EmailSession
assessed_auth =
    populate_flat_fields
      (record auth_session { findings = assess decimal decimal default_policy auth_session })

populate_flat_fields-assess_example :
    (assessed_auth.risk_score ≡ 9) × (assessed_auth.severity ≡ critical)
unfolding any is_auth_command has_prefix to_upper codes
populate_flat_fields-assess_example =
    populate_flat_fields-assess decimal decimal default_policy auth_session refl refl

assess_forward_secrecy-classify_cipher_example :
    (classify_cipher (codes "TLS_ECDHE_RSA_WITH_AES_128_CBC_SHA")).is_pfs ≡ true
unfolding assess_forward_secrecy text_eq codes is_empty contains has_prefix to_upper
assess_forward_secrecy-classify_cipher_example =
    assess_forward_secrecy-classify_cipher (codes "TLS 1.2")
      (codes "TLS_ECDHE_RSA_WITH_AES_128_CBC_SHA") refl refl

abbrev pub two_findings : List Finding
two_findings = plaintext_session sid false ∷ weak_cipher sid cbc_suite ∷ []

max_severity_lem_example :
    IsBound (max_severity two_findings).0 two_findings
    × (((two_findings ≡ []) × ((max_severity two_findings).0 ≡ 0))
        ⊎ (Occurs (max_severity two_findings).1 two_findings
            × (severity_to_score (max_severity two_findings).1 ≡ (max_severity two_findings).0)))
max_severity_lem_example = max_severity_lem two_findings

abbrev some_ops : List (Op ℕ)
some_ops = put 1 ∷ put 2 ∷ take_one ∷ put 3 ∷ put 4 ∷ []

queue-IsFifo_example : IsFifo (
    ops some_ops
      (record { queue = new_ai_queue (codes "1") (codes "2"); enqueued = []; received = [] }))
queue-IsFifo_example = queue-IsFifo some_ops (codes "1") (codes "2")

abbrev settings : Settings
settings = record {
  remote_enabled = codes "true";
  local_enabled = codes "true";
  remote_timeout_ms = [];
  local_timeout_ms = codes "500";
  remote_url = codes "http://ai:11434";
  local_url = codes "http://localhost:11434";
  remote_model = codes "m1";
  local_model = codes "m2";
}

abbrev up : Probe
up = record { healthy = true; latency_ms = 3 }

abbrev down : Probe
down = record { healthy = false; latency_ms = 9 }

get_active_provider-checked_example :
    get_active_provider (checked settings ((down, up) ∷ (up, up) ∷ [])) ≡ (
      if usable settings.remote_enabled settings.remote_url down
      then (new_ai_router settings).remote_provider
      else if usable settings.local_enabled settings.local_url up
      then (new_ai_router settings).local_provider
      else none)
get_active_provider-checked_example = get_active_provider-checked settings ((up, up) ∷ []) down up
