-- ===== src/Api/Dashboard.antt =====
-- `GetDashboardSummary` of backend/internal/api/handlers.go, on the columns that `initSchema` of
-- backend/internal/storage/sqlite.go makes: a statement that names another column fails, and `Scan`
-- leaves its variable.
use secure_mail_scope_sih.Common.{
  ℕ, ◌+◌, ◌*◌, inl, inr, Bool, List, [], ◌∷◌, map, ltb, if◌then◌else◌, length, take, any, Text,
  codes, text_eq,
}
use secure_mail_scope_sih.Models.{
  AnalysisStatus, queued, parsing, reassembling, detecting_protocols, analyzing_start_tls,
  analyzing_tls, analyzing_certs, assessing_risk, completed, failed, Severity, info, low, medium,
  high, critical, Ratio,
}
use secure_mail_scope_sih.Storage.Tables.{
  AnalysisRow, SessionRow, Database, statement, query, rows_where,
}
use secure_mail_scope_sih.Storage.Analyses.{at_least, latest_first}
use secure_mail_scope_sih.Api.Summary.{protocol_text, count_key}

-- The columns of the tables, those of the migrations last
abbrev pub analyses_columns : List Text
analyses_columns =
    codes "id"
    ∷ codes "pcap_path"
    ∷ codes "pcap_filename"
    ∷ codes "status"
    ∷ codes "started_at"
    ∷ codes "finished_at"
    ∷ codes "total_packets"
    ∷ codes "total_sessions"
    ∷ codes "overall_score"
    ∷ codes "overall_severity"
    ∷ codes "forward_secrecy_pct"
    ∷ codes "severity_breakdown"
    ∷ codes "error"
    ∷ codes "global_ai_assessment"
    ∷ []

abbrev pub sessions_columns : List Text
sessions_columns =
    codes "id"
    ∷ codes "analysis_id"
    ∷ codes "client_ip"
    ∷ codes "client_port"
    ∷ codes "server_ip"
    ∷ codes "server_port"
    ∷ codes "protocol"
    ∷ codes "start_time"
    ∷ codes "end_time"
    ∷ codes "packet_count"
    ∷ codes "client_bytes"
    ∷ codes "server_bytes"
    ∷ codes "stream_complete"
    ∷ codes "reassembly_gap"
    ∷ codes "starttls_json"
    ∷ codes "tls_json"
    ∷ codes "certificate_json"
    ∷ codes "forward_secrecy"
    ∷ codes "anomaly_score"
    ∷ codes "is_anomalous"
    ∷ codes "scores_json"
    ∷ codes "ai_assessment"
    ∷ codes "ai_assessment_structured"
    ∷ codes "remediations_json"
    ∷ []

-- The text that the `status` column holds
unfoldable pub status_text : AnalysisStatus → Text
status_text queued = codes "QUEUED"
status_text parsing = codes "PARSING"
status_text reassembling = codes "REASSEMBLING"
status_text detecting_protocols = codes "DETECTING_PROTOCOLS"
status_text analyzing_start_tls = codes "ANALYZING_STARTTLS"
status_text analyzing_tls = codes "ANALYZING_TLS"
status_text analyzing_certs = codes "ANALYZING_CERTIFICATES"
status_text assessing_risk = codes "ASSESSING_RISK"
status_text completed = codes "COMPLETED"
status_text failed = codes "FAILED"

-- `WHERE status='completed'`
unfoldable pub is_completed : AnalysisRow → Bool
unfolding status_text
is_completed row = text_eq (status_text row.status) (codes "completed")

-- A statement that uses one column, of a table with these columns: what is read, or what the variable
-- held before.
unfoldable pub select_column {ℓ} :
    {A : Type ℓ} → Text → List Text → A → (Database → A) → Database → A × Database
select_column column columns unset read db =
    if any (λ c. text_eq c column) columns
    then (let (answer, asked) = query read db in (elim answer [ inl e ↦ unset | inr a ↦ a ], asked))
    else (unset, (statement db).1)

-- The sum of two floats; the denominator 0 stands for 0.0.
add_ratio : Ratio → Ratio → Ratio
add_ratio a b =
    if ltb 0 a.denominator
    then (if ltb 0 b.denominator
        then record {
          numerator = a.numerator * b.denominator + b.numerator * a.denominator;
          denominator = a.denominator * b.denominator;
        }
        else a)
    else b

sum_ratios : List Ratio → Ratio
sum_ratios [] = record { numerator = 0; denominator = 1 }
sum_ratios (r ∷ rs) = add_ratio r (sum_ratios rs)

-- `COALESCE(AVG(...), default)`
unfoldable pub average_or : Ratio → List Ratio → Ratio
unfolding add_ratio sum_ratios
average_or unset [] = unset
average_or unset (r ∷ rs) =
    let total = sum_ratios (r ∷ rs) in
    record { numerator = total.numerator; denominator = total.denominator * length (r ∷ rs) }

sum_sessions : List AnalysisRow → ℕ
sum_sessions [] = 0
sum_sessions (row ∷ rows) = row.total_sessions + sum_sessions rows

-- `SELECT protocol, COUNT(*) ... GROUP BY protocol`
group_protocols : List SessionRow → List (Text × ℕ)
group_protocols [] = []
group_protocols (row ∷ rows) = count_key (protocol_text row.protocol) (group_protocols rows)

-- The thresholds of the dashboard's label
unfoldable pub dashboard_severity : Ratio → Severity
dashboard_severity score =
    if at_least 8 score
    then critical
    else if at_least 6 score
    then high
    else if at_least 4 score
    then medium
    else if at_least 2 score
    then low
    else info

pub record Dashboard : Type 0 where
  pub total_analyses : ℕ
  pub total_sessions : ℕ
  pub average_score : Ratio
  pub overall_severity : Severity
  pub severity_breakdown : List (Text × ℕ)
  pub tls_version_breakdown : List (Text × ℕ)
  pub protocol_breakdown : List (Text × ℕ)
  pub total_anomalies : ℕ
  pub forward_secrecy_pct : Ratio
  pub recent_analyses : List AnalysisRow

-- `sevBreakdown` before its rows are read
abbrev pub no_severities : List (Text × ℕ)
no_severities =
    (codes "CRITICAL", 0)
    ∷ (codes "HIGH", 0)
    ∷ (codes "MEDIUM", 0)
    ∷ (codes "LOW", 0)
    ∷ (codes "INFO", 0)
    ∷ []

abbrev pub zero_ratio : Ratio
zero_ratio = record { numerator = 0; denominator = 0 }

abbrev pub one_ratio : Ratio
one_ratio = record { numerator = 1; denominator = 1 }

-- `GetDashboardSummary`. No row has the columns `anomaly_count`, `severity` and `tls_version`: what is
-- read where the schema had them stands as nothing.
unfoldable pub get_dashboard_summary : Database → Dashboard × Database
unfolding is_completed select_column average_or sum_sessions group_protocols dashboard_severity
get_dashboard_summary db =
    let (total_analyses, d1) =
      select_column (codes "id") analyses_columns 0 (λ d. length d.analyses) db in
    let (total_sessions, d2) =
      select_column (codes "total_sessions") analyses_columns 0 (λ d. sum_sessions d.analyses) d1 in
    let (average, d3) =
      select_column (codes "overall_score") analyses_columns zero_ratio
        (λ d.
          average_or one_ratio
            (map (λ row. row.overall_score) (rows_where is_completed d.analyses)))
        d2 in
    let (anomalies, d4) = select_column (codes "anomaly_count") analyses_columns 0 (λ d. 0) d3 in
    let (fs_pct, d5) =
      select_column (codes "forward_secrecy_pct") analyses_columns zero_ratio
        (λ d.
          average_or zero_ratio
            (map (λ row. row.forward_secrecy_pct) (rows_where is_completed d.analyses)))
        d4 in
    let (severities, d6) =
      select_column (codes "severity") sessions_columns no_severities (λ d. []) d5 in
    let (versions, d7) = select_column (codes "tls_version") sessions_columns [] (λ d. []) d6 in
    let (protocols, d8) =
      select_column (codes "protocol") sessions_columns [] (λ d. group_protocols d.sessions) d7 in
    let (recent, d9) =
      select_column (codes "started_at") analyses_columns []
        (λ d. take 10 (latest_first [] d.analyses)) d8 in
    (
      record {
        total_analyses = total_analyses;
        total_sessions = total_sessions;
        average_score = average;
        overall_severity = dashboard_severity average;
        severity_breakdown = severities;
        tls_version_breakdown = versions;
        protocol_breakdown = protocols;
        total_anomalies = anomalies;
        forward_secrecy_pct = fs_pct;
        recent_analyses = recent;
      },
      d9,
    )
