-- ===== src/Storage/Sessions.antt =====
-- How backend/internal/storage/sqlite.go saves sessions and findings. `json.Marshal` and `json.Unmarshal` are
-- a parameter; the marshalled form of a nil pointer is `null`.
use secure_mail_scope_sih.Common.{
  ℕ, Bool, Option, none, some, List, [], ◌∷◌, if◌then◌else◌, Text, codes, text_eq,
}
use secure_mail_scope_sih.Models.{
  StartTlsInfo, TlsInfo, CertificateInfo, FindingEvidence, Finding, AiAssessmentResult,
  SessionScores, EmailSession,
}
use secure_mail_scope_sih.Storage.Tables.{
  SessionRow, FindingRow, Database, Outcome, and_then, exec, insert_or_replace,
}
use secure_mail_scope_sih.Storage.Analyses.{Codec}

pub record Codecs : Type 0 where
  pub start_tls : Codec StartTlsInfo
  pub tls : Codec TlsInfo
  pub certificate : Codec CertificateInfo
  pub scores : Codec SessionScores
  pub structured : Codec AiAssessmentResult
  pub remediations : Codec (List Text)
  pub evidence : Codec FindingEvidence
  -- What `sessions[i].StartTLS` and `Scores` hold where no text is read into them.
  pub no_start_tls : StartTlsInfo
  pub no_scores : SessionScores

unfoldable pub int_of : Bool → ℕ
int_of b = if b then 1 else 0

unfoldable pub encode_if_set {ℓ} : {A : Type ℓ} → Codec A → Option A → Text
encode_if_set codec none = []
encode_if_set codec (some a) = codec.encode a

-- `json.Marshal` of a pointer
unfoldable pub encode_pointer {ℓ} : {A : Type ℓ} → Codec A → Option A → Text
encode_pointer codec none = codes "null"
encode_pointer codec (some a) = codec.encode a

-- The values of `SaveSession`'s statement
unfoldable pub session_row : Codecs → EmailSession → SessionRow
unfolding int_of encode_if_set encode_pointer
session_row json s = record {
  id = s.id;
  analysis_id = s.analysis_id;
  client_ip = s.client.ip;
  client_port = s.client.port;
  server_ip = s.server.ip;
  server_port = s.server.port;
  protocol = s.protocol;
  start_time = s.start_time;
  end_time = s.end_time;
  packet_count = s.packet_count;
  client_bytes = s.client_bytes;
  server_bytes = s.server_bytes;
  stream_complete = int_of s.stream_complete;
  reassembly_gap = int_of s.reassembly_gap;
  start_tls_json = json.start_tls.encode s.start_tls;
  tls_json = encode_if_set json.tls s.tls;
  certificate_json = encode_if_set json.certificate s.certificate;
  forward_secrecy = s.forward_secrecy;
  anomaly_score = s.anomaly_score;
  is_anomalous = int_of s.is_anomalous;
  scores_json = json.scores.encode s.scores;
  ai_assessment = s.ai_assessment;
  ai_assessment_structured = encode_pointer json.structured s.ai_assessment_structured;
  remediations_json = json.remediations.encode s.remediations;
}

unfoldable pub finding_row : Codecs → Text → Finding → FindingRow
finding_row json analysis_id f = record {
  id = f.id;
  analysis_id = analysis_id;
  session_id = f.session_id;
  title = f.title;
  severity = f.severity;
  category = f.category;
  description = f.description;
  evidence_json = json.evidence.encode f.evidence;
  recommendation = f.recommendation;
}

unfoldable pub has_session_id : Text → SessionRow → Bool
has_session_id id row = text_eq row.id id

unfoldable pub has_finding_id : Text → FindingRow → Bool
has_finding_id id row = text_eq row.id id

unfoldable pub finding_in_session : Text → FindingRow → Bool
finding_in_session id row = text_eq row.session_id id

unfoldable pub put_session : SessionRow → Database → Database
unfolding has_session_id
put_session row db = record db {
  sessions = insert_or_replace (has_session_id row.id) row db.sessions;
}

unfoldable pub put_finding : FindingRow → Database → Database
unfolding has_finding_id
put_finding row db = record db {
  findings = insert_or_replace (has_finding_id row.id) row db.findings;
}

-- `SaveFinding`
unfoldable pub save_finding : Codecs → Text → Finding → Database → Outcome × Database
unfolding finding_row
save_finding json analysis_id f db = exec (put_finding (finding_row json analysis_id f)) db

-- The loop of `SaveSession` over the findings, which ends at the first error.
unfoldable pub save_findings : Codecs → Text → List Finding → Database → Outcome × Database
unfolding and_then
save_findings json analysis_id [] db = (none, db)
save_findings json analysis_id (f ∷ fs) db =
    and_then (save_finding json analysis_id f db) (λ saved. save_findings json analysis_id fs saved)

-- `SaveSession`
unfoldable pub save_session : Codecs → EmailSession → Database → Outcome × Database
unfolding session_row and_then
save_session json s db =
    and_then (exec (put_session (session_row json s)) db)
      (λ saved. save_findings json s.analysis_id s.findings saved)
