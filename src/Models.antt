-- ===== src/Models.antt =====
-- backend/internal/models/models.go: the values that the backend passes between its parts. A string
-- constant of a named type is a constructor; an instant is a number, 0 for the zero `time.Time`; a
-- JSON value that is only carried along (`interface{}`, a float from outside) is its text.
use secure_mail_scope_sih.Common.{ℕ, Bool, Option, List, Text, codes}

pub data AnalysisStatus : Type 0 where
  queued parsing reassembling detecting_protocols analyzing_start_tls : AnalysisStatus
  analyzing_tls analyzing_certs assessing_risk completed failed : AnalysisStatus

pub data EmailProtocol : Type 0 where
  smtp imap pop3 unknown_protocol : EmailProtocol

pub data ForwardSecrecyStatus : Type 0 where
  fs_yes fs_no fs_unknown : ForwardSecrecyStatus

-- A severity that arrives in JSON may be any other text.
pub data Severity : Type 0 where
  info low medium high critical : Severity
  other_severity : Text → Severity

pub data StartTlsState : Type 0 where
  plaintext command_sent accepted failed_state tls_handshake encrypted : StartTlsState
  start_tls_not_used : StartTlsState

pub record StartTlsInfo : Type 0 where
  pub state : StartTlsState
  pub supported : Bool
  pub requested : Bool
  pub accepted_flag : Bool
  pub tls_started : Bool
  pub tls_established : Bool
  pub response_code : Text

-- `Direction`: "client_to_server" or "server_to_client"
pub data Direction : Type 0 where
  client_to_server server_to_client : Direction

pub record ProtocolEvent : Type 0 where
  pub timestamp : ℕ
  pub direction : Direction
  pub command : Text
  pub response : Text

pub record TlsInfo : Type 0 where
  pub version : Text
  pub cipher_suite : Text
  pub server_name : Text
  pub alpn : Text
  pub key_exchange_group : Text
  pub signature_algorithm : Text
  pub alert_count : ℕ
  pub stream_id : ℕ
  pub client_ip : Text
  pub client_port : ℕ
  pub server_ip : Text
  pub server_port : ℕ
  pub tls_observed : Bool
  pub server_hello_seen : Bool
  pub certificate_seen : Bool
  pub handshake_failed : Bool
  pub handshake_completed : Bool
  pub app_data_observed : Bool
  pub raw_certificates : List Text

pub record CertificateInfo : Type 0 where
  pub subject : Text
  pub issuer : Text
  pub serial_number : Text
  pub not_before : ℕ
  pub not_after : ℕ
  pub key_algorithm : Text
  pub key_bits : ℕ
  pub signature_algorithm : Text
  pub dns_names : List Text
  pub expired : Bool
  pub not_yet_valid : Bool
  pub chain_verified : Option Bool
  pub hostname_verified : Option Bool
  pub parse_error : Text
  pub fingerprint : Text

pub record FindingEvidence : Type 0 where
  pub packet_numbers : List ℕ
  pub session_id : Text
  pub pcap : Text
  pub details : Text

pub record Finding : Type 0 where
  pub id : Text
  pub title : Text
  pub severity : Severity
  pub category : Text
  pub session_id : Text
  pub description : Text
  pub confidence : Text
  pub evidence : FindingEvidence
  pub recommendation : Text

pub record Endpoint : Type 0 where
  pub ip : Text
  pub port : ℕ

pub record EvidenceCorrelation : Type 0 where
  pub evidence_name : Text
  pub observation : Text
  pub security_implication : Text

pub record AiAssessmentResult : Type 0 where
  pub executive_interpretation : Text
  pub evidence_correlation : List EvidenceCorrelation
  pub ai_reasoning : Text
  pub priority : Text
  pub recommended_actions : List Text

-- `SessionScores`, in tenths
pub record SessionScores : Type 0 where
  pub tls_version : ℕ
  pub cipher_strength : ℕ
  pub key_exchange : ℕ
  pub certificate : ℕ
  pub signature_algorithm : ℕ

-- `EmailSession`; `risk_score` takes whole values only.
pub record EmailSession : Type 0 where
  pub id : Text
  pub analysis_id : Text
  pub client : Endpoint
  pub server : Endpoint
  pub protocol : EmailProtocol
  pub start_time : ℕ
  pub end_time : ℕ
  pub packet_count : ℕ
  pub client_bytes : ℕ
  pub server_bytes : ℕ
  pub stream_complete : Bool
  pub reassembly_gap : Bool
  pub start_tls : StartTlsInfo
  pub tls : Option TlsInfo
  pub certificate : Option CertificateInfo
  pub forward_secrecy : ForwardSecrecyStatus
  pub findings : List Finding
  pub protocol_events : List ProtocolEvent
  pub session_id : Text
  pub src_ip : Text
  pub dst_ip : Text
  pub tls_version : Text
  pub negotiated_cipher : Text
  pub signature_algorithm : Text
  pub risk_score : ℕ
  pub severity : Severity
  pub has_forward_secrecy : Bool
  pub is_anomalous : Bool
  pub anomaly_score : Text
  pub scores : SessionScores
  pub remediations : List Text
  pub ai_assessment : Text
  pub ai_assessment_structured : Option AiAssessmentResult

-- A `float64` that is a quotient of two whole numbers; with the denominator 0 it stands for 0.0, the
-- value of a variable that no division was assigned to.
pub record Ratio : Type 0 where
  pub numerator : ℕ
  pub denominator : ℕ

-- `Analysis`
pub record Analysis : Type 0 where
  pub id : Text
  pub pcap_path : Text
  pub pcap_filename : Text
  pub status : AnalysisStatus
  pub started_at : ℕ
  pub finished_at : Option ℕ
  pub total_packets : ℕ
  pub total_sessions : ℕ
  pub overall_score : Ratio
  pub overall_severity : Severity
  pub forward_secrecy_pct : Ratio
  pub anomaly_count : ℕ
  pub severity_breakdown : List (Text × ℕ)
  pub error : Text
  pub global_ai_assessment : Text

-- The text of a severity's string constant
unfoldable pub severity_text : Severity → Text
severity_text info = codes "INFO"
severity_text low = codes "LOW"
severity_text medium = codes "MEDIUM"
severity_text high = codes "HIGH"
severity_text critical = codes "CRITICAL"
severity_text (other_severity text) = text
