-- ===== src/Api/Label.antt =====
-- What the dashboard of backend/internal/api/handlers.go can show, whatever the database holds.
use secure_mail_scope_sih.Common.{
  ◌≡◌, refl, ap, ◌∙◌, ◌⊎◌, inl, inr, false, List, [], ◌∷◌, map, Bool-cases, any, Text, codes,
  text_eq,
}
use secure_mail_scope_sih.Models.{
  AnalysisStatus, queued, parsing, reassembling, detecting_protocols, analyzing_start_tls,
  analyzing_tls, analyzing_certs, assessing_risk, completed, failed, info, Ratio,
}
use secure_mail_scope_sih.Storage.Tables.{AnalysisRow, Database, query, rows_where, statement}
use secure_mail_scope_sih.Storage.Analyses.{at_least}
use secure_mail_scope_sih.Api.Dashboard.{
  analyses_columns, sessions_columns, status_text, is_completed, select_column, average_or,
  dashboard_severity, no_severities, zero_ratio, one_ratio, get_dashboard_summary,
}

status_differs : (s : AnalysisStatus) → text_eq (status_text s) (codes "completed") ≡ false
unfolding status_text codes text_eq
status_differs queued = refl
status_differs parsing = refl
status_differs reassembling = refl
status_differs detecting_protocols = refl
status_differs analyzing_start_tls = refl
status_differs analyzing_tls = refl
status_differs analyzing_certs = refl
status_differs assessing_risk = refl
status_differs completed = refl
status_differs failed = refl

no_completed : (rows : List AnalysisRow) → rows_where is_completed rows ≡ []
unfolding rows_where is_completed
no_completed [] = refl
no_completed (row ∷ rows) = rw (status_differs row.status) (no_completed rows)

-- What a selection yields: what was there, or what is read of some state.
select-cases {ℓ} :
    {A : Type ℓ} (column : Text) (columns : List Text) (unset : A) (read : Database → A)
    (db : Database)
    → ((select_column column columns unset read db).0 ≡ unset)
      ⊎ ((d : Database) × ((select_column column columns unset read db).0 ≡ read d))
unfolding select_column query
select-cases column columns unset read db =
    elim (Bool-cases (any (λ c. text_eq c column) columns)) [
      | inr e ↦ inl (rw e refl)
      | inl e ↦ elim (Bool-cases (statement db).0) [
        | inl refuses ↦ inl (rw (e, refuses) refl)
        | inr takes ↦ inr ((statement db).1, rw (e, takes) refl)
      ]
    ]

select_missing {ℓ} :
    {A : Type ℓ} (column : Text) (columns : List Text) (unset : A) (read : Database → A)
    (db : Database)
    → any (λ c. text_eq c column) columns ≡ false
    → (select_column column columns unset read db).0 ≡ unset
unfolding select_column
select_missing column columns unset read db e = rw e refl

-- The query of the average score
average_read : Database → Ratio
average_read d =
    average_or one_ratio (map (λ row. row.overall_score) (rows_where is_completed d.analyses))

average-label :
    (db : Database)
    → dashboard_severity
        (select_column (codes "overall_score") analyses_columns zero_ratio average_read db).0
      ≡ info
unfolding dashboard_severity at_least average_or average_read
average-label db =
    elim (select-cases (codes "overall_score") analyses_columns zero_ratio average_read db) [
      | inl e ↦ ap dashboard_severity e
      | inr (d, e) ↦ ap dashboard_severity (
          e
          ∙ ap (λ rows. average_or one_ratio (map (λ row. row.overall_score) rows))
              (no_completed d.analyses))
    ]

-- The three columns that no table has
no_anomaly_count : any (λ c. text_eq c (codes "anomaly_count")) analyses_columns ≡ false
unfolding any text_eq codes
no_anomaly_count = refl

no_tls_version : any (λ c. text_eq c (codes "tls_version")) sessions_columns ≡ false
unfolding any text_eq codes
no_tls_version = refl

no_severity : any (λ c. text_eq c (codes "severity")) sessions_columns ≡ false
unfolding any text_eq codes
no_severity = refl

-- The dashboard shows the severity INFO, no anomalies, no TLS version and no severity of a session,
-- whatever analyses and sessions are stored.
pub get_dashboard_summary-IsBlank :
    (db : Database)
    → let shown = (get_dashboard_summary db).0 in
      (shown.overall_severity ≡ info)
      × (shown.total_anomalies ≡ 0)
      × (shown.tls_version_breakdown ≡ [])
      × (shown.severity_breakdown ≡ no_severities)
unfolding get_dashboard_summary average_read
get_dashboard_summary-IsBlank db = (
  average-label _,
  select_missing (codes "anomaly_count") analyses_columns _ _ _ no_anomaly_count,
  select_missing (codes "tls_version") sessions_columns _ _ _ no_tls_version,
  select_missing (codes "severity") sessions_columns _ _ _ no_severity,
)
