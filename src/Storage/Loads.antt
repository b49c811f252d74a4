-- ===== src/Storage/Loads.antt =====
-- How backend/internal/storage/sqlite.go reads sessions and findings.
use secure_mail_scope_sih.Common.{
  Bool, not, ◌&&◌, Option, none, some, List, [], ◌∷◌, map, inl, inr, ◌==◌, if◌then◌else◌, Text,
  codes, text_eq, is_empty,
}
use secure_mail_scope_sih.Models.{
  TlsInfo, Finding, AiAssessmentResult, EmailSession, other_severity,
}
use secure_mail_scope_sih.Storage.Tables.{
  SessionRow, FindingRow, Database, Reply, query, query_row, rows_where,
}
use secure_mail_scope_sih.Storage.Analyses.{Codec, is_session_of, is_finding_of}
use secure_mail_scope_sih.Analysis.Scores.{is_fs_yes, max_severity}
use secure_mail_scope_sih.Storage.Sessions.{
  Codecs, finding_in_session, has_finding_id, has_session_id,
}

-- `Unmarshal` into a field that was not set before, where the column is not empty
unfoldable pub fill_or {ℓ} : {A : Type ℓ} → Codec A → A → Text → A
fill_or codec unset text = if is_empty text then unset else codec.fills text

unfoldable pub fill_pointer {ℓ} : {A : Type ℓ} → Codec A → Text → Option A
fill_pointer codec text = if codec.accepts text then some (codec.fills text) else none

unfoldable pub fill_if_set {ℓ} : {A : Type ℓ} → Codec A → Text → Option A
unfolding fill_pointer
fill_if_set codec text = if is_empty text then none else fill_pointer codec text

-- `text != "" && text != empty && text != "null"`
unfoldable pub has_content : Text → Text → Bool
has_content empty text =
    not (is_empty text) && not (text_eq text empty) && not (text_eq text (codes "null"))

unfoldable pub fill_structured : Codec AiAssessmentResult → Text → Option AiAssessmentResult
unfolding fill_pointer
fill_structured codec text = if has_content (codes "{}") text then fill_pointer codec text else none

unfoldable pub fill_remediations : Codec (List Text) → Text → List Text
fill_remediations codec text = if has_content (codes "[]") text then codec.fills text else []

unfoldable pub text_of_tls : (TlsInfo → Text) → Option TlsInfo → Text
text_of_tls field none = []
text_of_tls field (some tls) = field tls

-- A session row as the session it is read into: without findings and events, rated with 0 and "".
unfoldable pub session_of : Codecs → SessionRow → EmailSession
unfolding fill_or fill_if_set fill_structured fill_remediations text_of_tls is_fs_yes
session_of json row =
    let tls = fill_if_set json.tls row.tls_json in
    record {
      id = row.id;
      analysis_id = row.analysis_id;
      client = record { ip = row.client_ip; port = row.client_port };
      server = record { ip = row.server_ip; port = row.server_port };
      protocol = row.protocol;
      start_time = row.start_time;
      end_time = row.end_time;
      packet_count = row.packet_count;
      client_bytes = row.client_bytes;
      server_bytes = row.server_bytes;
      stream_complete = row.stream_complete == 1;
      reassembly_gap = row.reassembly_gap == 1;
      start_tls = fill_or json.start_tls json.no_start_tls row.start_tls_json;
      tls = tls;
      certificate = fill_if_set json.certificate row.certificate_json;
      forward_secrecy = row.forward_secrecy;
      findings = [];
      protocol_events = [];
      session_id = row.id;
      src_ip = row.client_ip;
      dst_ip = row.server_ip;
      tls_version = text_of_tls (λ t. t.version) tls;
      negotiated_cipher = text_of_tls (λ t. t.cipher_suite) tls;
      signature_algorithm = text_of_tls (λ t. t.signature_algorithm) tls;
      risk_score = 0;
      severity = other_severity [];
      has_forward_secrecy = is_fs_yes row.forward_secrecy;
      is_anomalous = row.is_anomalous == 1;
      anomaly_score = row.anomaly_score;
      scores = fill_or json.scores json.no_scores row.scores_json;
      remediations = fill_remediations json.remediations row.remediations_json;
      ai_assessment = row.ai_assessment;
      ai_assessment_structured = fill_structured json.structured row.ai_assessment_structured;
    }

-- A finding row as the finding it is read into; no column holds the confidence.
unfoldable pub finding_of : Codecs → FindingRow → Finding
finding_of json row = record {
  id = row.id;
  title = row.title;
  severity = row.severity;
  category = row.category;
  session_id = row.session_id;
  description = row.description;
  confidence = [];
  evidence = json.evidence.fills row.evidence_json;
  recommendation = row.recommendation;
}

-- `GetFindingsForSession`
unfoldable pub get_findings_for_session : Codecs → Text → Database → Reply (List Finding) × Database
unfolding finding_in_session finding_of
get_findings_for_session json session_id db =
    query
      (λ ready. map (finding_of json) (rows_where (finding_in_session session_id) ready.findings))
      db

-- `GetFindingsForAnalysis`
unfoldable pub get_findings_for_analysis :
    Codecs → Text → Database → Reply (List Finding) × Database
unfolding is_finding_of finding_of
get_findings_for_analysis json analysis_id db =
    query (λ ready. map (finding_of json) (rows_where (is_finding_of analysis_id) ready.findings))
      db

-- `GetFinding`
unfoldable pub get_finding : Codecs → Text → Database → Reply Finding × Database
unfolding has_finding_id finding_of
get_finding json id db =
    query_row (λ ready. map (finding_of json) (rows_where (has_finding_id id) ready.findings)) db

-- `findings, _ := ...`
unfoldable pub found_or_none : Reply (List Finding) → List Finding
found_or_none (inl e) = []
found_or_none (inr fs) = fs

-- The findings of a session that was read, and its rating from them
unfoldable pub rate_session : List Finding → EmailSession → EmailSession
rate_session fs s =
    let (risk_score, severity) = max_severity fs in
    record s { findings = fs; risk_score = risk_score; severity = severity }

-- The loop of `GetSessionsForAnalysis` over the sessions it read
unfoldable pub with_findings : Codecs → List EmailSession → Database → List EmailSession × Database
unfolding found_or_none rate_session
with_findings json [] db = ([], db)
with_findings json (s ∷ ss) db =
    let (found, asked) = get_findings_for_session json s.id db in
    let (rest, end) = with_findings json ss asked in
    (rate_session (found_or_none found) s ∷ rest, end)

-- `GetSessionsForAnalysis` behind its query
unfoldable pub finish_sessions :
    Codecs → Reply (List EmailSession) × Database → Reply (List EmailSession) × Database
unfolding with_findings
finish_sessions json (inl e, db) = (inl e, db)
finish_sessions json (inr ss, db) = let (rated, end) = with_findings json ss db in (inr rated, end)

-- `GetSessionsForAnalysis`
unfoldable pub get_sessions_for_analysis :
    Codecs → Text → Database → Reply (List EmailSession) × Database
unfolding is_session_of session_of finish_sessions
get_sessions_for_analysis json analysis_id db = finish_sessions json (
    query (λ ready. map (session_of json) (rows_where (is_session_of analysis_id) ready.sessions))
      db)

-- `GetSession` behind its query: it does not rate the session it returns.
unfoldable pub finish_session :
    Codecs → Reply EmailSession × Database → Reply EmailSession × Database
unfolding found_or_none
finish_session json (inl e, db) = (inl e, db)
finish_session json (inr s, db) =
    let (fs, end) = get_findings_for_session json s.id db in
    (inr (record s { findings = found_or_none fs }), end)

-- `GetSession`
unfoldable pub get_session : Codecs → Text → Database → Reply EmailSession × Database
unfolding has_session_id session_of finish_session
get_session json session_id db = finish_session json (
    query_row
      (λ ready. map (session_of json) (rows_where (has_session_id session_id) ready.sessions)) db)
