-- ===== src/Storage/Isolation.antt =====
-- What the operations of backend/internal/storage/sqlite.go on one analysis leave of the others, and
-- what `DeleteAnalysis` leaves of its own.
use secure_mail_scope_sih.Common.{
  ℕ, ◌≡◌, refl, sym, ap, ◌∙◌, ◌≢◌, true, false, none, List, [], map, inl, inr, Bool-cases, Text,
  text_eq, text_eq_iff,
}
use secure_mail_scope_sih.Models.{AnalysisStatus, Ratio}
use secure_mail_scope_sih.Storage.Tables.{
  AnalysisRow, Database, no_rows, exec, first_row, rows_where,
}
use secure_mail_scope_sih.Storage.Analyses.{
  Codec, is_analysis, is_session_of, is_finding_of, delete_analysis, update_analysis,
  update_analysis_status, update_analysis_stats, update_analysis_aggregate,
  update_global_ai_assessment, get_analysis, delete_sessions, delete_findings, delete_analysis_row,
  scan_analysis,
}
use secure_mail_scope_sih.Storage.Sessions.{Codecs}
use secure_mail_scope_sih.Storage.Loads.{
  get_sessions_for_analysis, get_findings_for_analysis, with_findings, session_of, finding_of,
  finish_sessions,
}
use secure_mail_scope_sih.Storage.Rows.{
  NoRow, rows_where_none, NoRow-delete_where, rows_where-delete_where, rows_where-update_where,
}
use secure_mail_scope_sih.Storage.Statements.{
  IsOnTables, exec-Holds, IsWilling, exec-IsWilling, query-IsWilling, query_row-IsWilling,
}

-- The two databases hold the same rows of an analysis, in the same order.
pub record SameRows (id : Text) (d e : Database) : Type 0 where
  pub analyses : rows_where (is_analysis id) d.analyses ≡ rows_where (is_analysis id) e.analyses
  pub sessions : rows_where (is_session_of id) d.sessions ≡ rows_where (is_session_of id) e.sessions
  pub findings : rows_where (is_finding_of id) d.findings ≡ rows_where (is_finding_of id) e.findings

texts_apart : (id j a : Text) → id ≢ j → text_eq a j ≡ true → text_eq a id ≡ false
texts_apart id j a h e = elim (Bool-cases (text_eq a id)) [
  | inl same ↦ absurd (h (sym ((text_eq_iff a id).0 same) ∙ (text_eq_iff a j).0 e))
  | inr other ↦ other
]

SameRows-IsOnTables : (j : Text) (db : Database) → IsOnTables (λ d. SameRows j d db)
SameRows-IsOnTables j db d rs h = record {
  analyses = h.analyses;
  sessions = h.sessions;
  findings = h.findings;
}

SameRows-refl : (j : Text) (db : Database) → SameRows j db db
SameRows-refl j db = record { analyses = refl; sessions = refl; findings = refl }

-- A statement leaves the rows of an analysis if its change does.
exec-SameRows :
    (j : Text) (db : Database) (change : Database → Database)
    → ((d : Database) → SameRows j d db → SameRows j (change d) db)
    → (d : Database) → SameRows j d db
    → SameRows j (exec change d).1 db
exec-SameRows j db change k d h =
    exec-Holds (λ d. SameRows j d db) change d (SameRows-IsOnTables j db) k h

-- A deletion leaves the rows of every other analysis, and the driver may refuse any of its statements.
pub delete_analysis-SameRows :
    (id j : Text) (db : Database) → id ≢ j → SameRows j (delete_analysis id db).1 db
unfolding delete_analysis is_analysis is_session_of is_finding_of
delete_analysis-SameRows id j db h =
    exec-SameRows j db _
      (λ d k. record {
        analyses =
            rows_where-delete_where _ _ d.analyses (λ row e. texts_apart id j row.id h e)
            ∙ k.analyses;
        sessions = k.sessions;
        findings = k.findings;
      })
      _
      (exec-SameRows j db _
        (λ d k. record {
          analyses = k.analyses;
          sessions = k.sessions;
          findings =
              rows_where-delete_where _ _ d.findings (λ row e. texts_apart id j row.analysis_id h e)
              ∙ k.findings;
        })
        _
        (exec-SameRows j db _
          (λ d k. record {
            analyses = k.analyses;
            sessions =
                rows_where-delete_where _ _ d.sessions
                  (λ row e. texts_apart id j row.analysis_id h e)
                ∙ k.sessions;
            findings = k.findings;
          })
          db (SameRows-refl j db)))

get_analysis_none :
    (breakdowns : Codec (List (Text × ℕ))) (id : Text) (db : Database)
    → IsWilling db
    → NoRow (is_analysis id) db.analyses
    → (get_analysis breakdowns id db).0 ≡ inl no_rows
unfolding get_analysis first_row
get_analysis_none breakdowns id db h k =
    ap (λ r. r.0) (query_row-IsWilling _ db h)
    ∙ ap (λ rows. first_row (map (scan_analysis breakdowns) rows))
        (rows_where_none (is_analysis id) db.analyses k)

get_sessions_none :
    (json : Codecs) (id : Text) (db : Database)
    → IsWilling db
    → NoRow (is_session_of id) db.sessions
    → (get_sessions_for_analysis json id db).0 ≡ inr []
unfolding get_sessions_for_analysis finish_sessions with_findings
get_sessions_none json id db h k =
    ap (λ r. (finish_sessions json r).0) (query-IsWilling _ db h)
    ∙ ap (λ rows. (finish_sessions json (inr (map (session_of json) rows), db)).0)
        (rows_where_none (is_session_of id) db.sessions k)

get_findings_none :
    (json : Codecs) (id : Text) (db : Database)
    → IsWilling db
    → NoRow (is_finding_of id) db.findings
    → (get_findings_for_analysis json id db).0 ≡ inr []
unfolding get_findings_for_analysis
get_findings_none json id db h k =
    ap (λ r. r.0) (query-IsWilling _ db h)
    ∙ ap (λ rows. inr (map (finding_of json) rows))
        (rows_where_none (is_finding_of id) db.findings k)

-- Where the driver takes the statements, nothing of the deleted analysis can be read any more.
pub delete_analysis-IsGone :
    (json : Codecs) (breakdowns : Codec (List (Text × ℕ))) (id : Text) (db : Database)
    → IsWilling db
    → let (outcome, after) = delete_analysis id db in
      (outcome ≡ none)
      × ((get_analysis breakdowns id after).0 ≡ inl no_rows)
      × ((get_sessions_for_analysis json id after).0 ≡ inr [])
      × ((get_findings_for_analysis json id after).0 ≡ inr [])
unfolding delete_analysis delete_sessions delete_findings delete_analysis_row
delete_analysis-IsGone json breakdowns id db h =
    let d = delete_sessions id db in
    let e = delete_findings id d in
    let f = delete_analysis_row id e in
    rw (exec-IsWilling (delete_sessions id) db h) (
      rw (exec-IsWilling (delete_findings id) d h) (
        rw (exec-IsWilling (delete_analysis_row id) e h) (
          refl,
          get_analysis_none breakdowns id f h (NoRow-delete_where (is_analysis id) db.analyses),
          get_sessions_none json id f h (NoRow-delete_where (is_session_of id) db.sessions),
          get_findings_none json id f h (NoRow-delete_where (is_finding_of id) db.findings),
        )))

-- An update leaves the rows of every other analysis.
update_analysis-SameRows :
    (id j : Text) (change : AnalysisRow → AnalysisRow) (db : Database)
    → ((row : AnalysisRow) → (change row).id ≡ row.id)
    → id ≢ j
    → SameRows j (update_analysis id change db).1 db
unfolding update_analysis is_analysis
update_analysis-SameRows id j change db named h =
    exec-SameRows j db _
      (λ d k. record {
        analyses =
            rows_where-update_where _ _ change d.analyses (λ row. ap (λ a. text_eq a j) (named row))
              (λ row e. texts_apart id j row.id h e)
            ∙ k.analyses;
        sessions = k.sessions;
        findings = k.findings;
      })
      db (SameRows-refl j db)

-- Every update of one analysis leaves the rows of the others, whatever the driver answers.
updates-SameRows :
    (breakdowns : Codec (List (Text × ℕ))) (now : ℕ) (id j : Text) (status : AnalysisStatus)
    (message : Text) (packets sessions : ℕ) (score pct : Ratio) (counts : List (Text × ℕ))
    (db : Database)
    → id ≢ j
    → SameRows j (update_analysis_status now id status message db).1 db
      × SameRows j (update_analysis_stats id packets sessions db).1 db
      × SameRows j (update_analysis_aggregate breakdowns now id status score pct counts db).1 db
      × SameRows j (update_global_ai_assessment id message db).1 db
unfolding update_analysis_status update_analysis_stats update_analysis_aggregate
    update_global_ai_assessment
updates-SameRows breakdowns now id j status message packets sessions score pct counts db h = (
  update_analysis-SameRows id j _ db (λ row. refl) h,
  update_analysis-SameRows id j _ db (λ row. refl) h,
  update_analysis-SameRows id j _ db (λ row. refl) h,
  update_analysis-SameRows id j _ db (λ row. refl) h,
)
