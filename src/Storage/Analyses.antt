-- ===== src/Storage/Analyses.antt =====
-- The operations of backend/internal/storage/sqlite.go on analyses. `json.Marshal` and
-- `json.Unmarshal` of each type are a parameter.
use secure_mail_scope_sih.Common.{
  ℕ, ◌*◌, Bool, true, false, none, some, List, [], ◌∷◌, map, inl, inr, leb, ltb, ◌&&◌,
  if◌then◌else◌, Text, codes, text_eq,
}
use secure_mail_scope_sih.Models.{
  AnalysisStatus, completed, failed, Severity, info, low, medium, high, critical, Ratio, Analysis,
}
use secure_mail_scope_sih.Storage.Tables.{
  AnalysisRow, SessionRow, FindingRow, Database, refused, Outcome, Reply, statement, exec, query,
  query_row, rows_where, delete_where, update_where, insert_unique,
}

-- `json.Marshal`, and of `json.Unmarshal` into a zero value: what the value holds afterwards, and
-- whether there was no error.
pub record Codec {ℓ} (A : Type ℓ) : Type ℓ where
  pub encode : A → Text
  pub fills : Text → A
  pub accepts : Text → Bool

-- `WHERE id = ?` and `WHERE analysis_id = ?`
unfoldable pub is_analysis : Text → AnalysisRow → Bool
is_analysis id row = text_eq row.id id

unfoldable pub is_session_of : Text → SessionRow → Bool
is_session_of id row = text_eq row.analysis_id id

unfoldable pub is_finding_of : Text → FindingRow → Bool
is_finding_of id row = text_eq row.analysis_id id

unfoldable pub delete_sessions : Text → Database → Database
unfolding is_session_of
delete_sessions id db = record db { sessions = delete_where (is_session_of id) db.sessions }

unfoldable pub delete_findings : Text → Database → Database
unfolding is_finding_of
delete_findings id db = record db { findings = delete_where (is_finding_of id) db.findings }

unfoldable pub delete_analysis_row : Text → Database → Database
unfolding is_analysis
delete_analysis_row id db = record db { analyses = delete_where (is_analysis id) db.analyses }

-- `DeleteAnalysis`: the errors of the first two statements are dropped.
unfoldable pub delete_analysis : Text → Database → Outcome × Database
unfolding delete_sessions delete_findings delete_analysis_row
delete_analysis id db =
    exec (delete_analysis_row id) (exec (delete_findings id) (exec (delete_sessions id) db).1).1

-- The columns that `CreateAnalysis` names, and the defaults of the others.
unfoldable pub created_row : Analysis → AnalysisRow
created_row a = record {
  id = a.id;
  pcap_path = a.pcap_path;
  pcap_filename = a.pcap_filename;
  status = a.status;
  started_at = a.started_at;
  finished_at = none;
  total_packets = a.total_packets;
  total_sessions = a.total_sessions;
  overall_score = record { numerator = 0; denominator = 0 };
  overall_severity = info;
  forward_secrecy_pct = record { numerator = 0; denominator = 0 };
  severity_breakdown = codes "{}";
  error = a.error;
  global_ai_assessment = [];
}

-- `CreateAnalysis`
unfoldable pub create_analysis : Analysis → Database → Outcome × Database
unfolding statement created_row is_analysis
create_analysis a db =
    let (refuses, ready) = statement db in
    if refuses
    then (some refused, ready)
    else (elim (insert_unique (is_analysis a.id) (created_row a) ready.analyses) [
      | inl e ↦ (some e, ready)
      | inr rows ↦ (none, record ready { analyses = rows })
    ])

-- One `UPDATE analyses SET ... WHERE id = ?`
unfoldable pub update_analysis : Text → (AnalysisRow → AnalysisRow) → Database → Outcome × Database
unfolding is_analysis
update_analysis id change db =
    exec (λ ready. record ready { analyses = update_where (is_analysis id) change ready.analyses })
      db

-- The statuses at which `UpdateAnalysisStatus` notes the time; at every other one it clears it.
unfoldable pub is_final : AnalysisStatus → Bool
is_final completed = true
is_final failed = true
is_final _ = false

-- `UpdateAnalysisStatus`, at the instant `now`
unfoldable pub update_analysis_status :
    ℕ → Text → AnalysisStatus → Text → Database → Outcome × Database
unfolding is_final
update_analysis_status now id status message db =
    update_analysis id
      (λ row. record row {
        status = status;
        finished_at = if is_final status then some now else none;
        error = message;
      })
      db

-- `UpdateAnalysisStats`
unfoldable pub update_analysis_stats : Text → ℕ → ℕ → Database → Outcome × Database
update_analysis_stats id total_packets total_sessions db =
    update_analysis id
      (λ row. record row { total_packets = total_packets; total_sessions = total_sessions }) db

-- `score >= n` of a float, for `n` above 0
unfoldable pub at_least : ℕ → Ratio → Bool
at_least n score = ltb 0 score.denominator && leb (n * score.denominator) score.numerator

-- "Compute severity label from score"
unfoldable pub severity_of_score : Ratio → Severity
unfolding at_least
severity_of_score score =
    if at_least 9 score
    then critical
    else if at_least 7 score
    then high
    else if at_least 5 score
    then medium
    else if at_least 3 score
    then low
    else info

-- `UpdateAnalysisAggregate`, at the instant `now`
unfoldable pub update_analysis_aggregate :
    Codec (List (Text × ℕ))
    → ℕ
    → Text
    → AnalysisStatus
    → Ratio
    → Ratio
    → List (Text × ℕ)
    → Database
    → Outcome × Database
unfolding severity_of_score
update_analysis_aggregate breakdowns now id status overall_score fs_pct severity_breakdown db =
    update_analysis id
      (λ row. record row {
        status = status;
        finished_at = some now;
        overall_score = overall_score;
        overall_severity = severity_of_score overall_score;
        forward_secrecy_pct = fs_pct;
        severity_breakdown = breakdowns.encode severity_breakdown;
      })
      db

-- `UpdateGlobalAIAssessment`
unfoldable pub update_global_ai_assessment : Text → Text → Database → Outcome × Database
update_global_ai_assessment id assessment db =
    update_analysis id (λ row. record row { global_ai_assessment = assessment }) db

-- The `Scan` of an analysis row
unfoldable pub scan_analysis : Codec (List (Text × ℕ)) → AnalysisRow → Analysis
scan_analysis breakdowns row = record {
  id = row.id;
  pcap_path = row.pcap_path;
  pcap_filename = row.pcap_filename;
  status = row.status;
  started_at = row.started_at;
  finished_at = row.finished_at;
  total_packets = row.total_packets;
  total_sessions = row.total_sessions;
  overall_score = row.overall_score;
  overall_severity = row.overall_severity;
  forward_secrecy_pct = row.forward_secrecy_pct;
  anomaly_count = 0;
  severity_breakdown = breakdowns.fills row.severity_breakdown;
  error = row.error;
  global_ai_assessment = row.global_ai_assessment;
}

-- `GetAnalysis`
unfoldable pub get_analysis : Codec (List (Text × ℕ)) → Text → Database → Reply Analysis × Database
unfolding is_analysis scan_analysis
get_analysis breakdowns id db =
    query_row (λ ready. map (scan_analysis breakdowns) (rows_where (is_analysis id) ready.analyses))
      db

-- A row into its place by falling `started_at`, behind the rows of the same instant
by_started_at : AnalysisRow → List AnalysisRow → List AnalysisRow
by_started_at row [] = row ∷ []
by_started_at row (r ∷ rows) =
    let placed = by_started_at row rows in
    if leb row.started_at r.started_at then r ∷ placed else row ∷ r ∷ rows

-- `ORDER BY started_at DESC`
unfoldable pub latest_first : List AnalysisRow → List AnalysisRow → List AnalysisRow
unfolding by_started_at
latest_first sorted [] = sorted
latest_first sorted (row ∷ rows) = latest_first (by_started_at row sorted) rows

-- `ListAnalyses`
unfoldable pub list_analyses : Codec (List (Text × ℕ)) → Database → Reply (List Analysis) × Database
unfolding latest_first scan_analysis
list_analyses breakdowns db =
    query (λ ready. map (scan_analysis breakdowns) (latest_first [] ready.analyses)) db
