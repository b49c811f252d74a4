-- ===== src/Storage/WellFormed.antt =====
-- The invariant of the database of backend/internal/storage/sqlite.go, and that every operation of
-- the repository keeps it, whatever the driver answers.
use secure_mail_scope_sih.Common.{
  ℕ, ◌≡◌, refl, sym, Bool, true, false, Option, none, some, List, [], ◌∷◌, Bool-cases, inl, inr,
  All, All-append, any, Text, text_eq, if◌then◌else◌,
}
use secure_mail_scope_sih.Models.{AnalysisStatus, Finding, EmailSession, Analysis, Ratio}
use secure_mail_scope_sih.Storage.Tables.{
  AnalysisRow, Database, exec, statement, delete_where, insert_unique,
}
use secure_mail_scope_sih.Storage.Analyses.{
  Codec, is_final, created_row, create_analysis, delete_analysis, delete_sessions, delete_findings,
  delete_analysis_row, update_analysis, update_analysis_status, update_analysis_stats,
  update_analysis_aggregate, update_global_ai_assessment, is_analysis,
}
use secure_mail_scope_sih.Storage.Sessions.{
  Codecs, put_session, put_finding, session_row, finding_row, save_finding, save_findings,
  save_session, has_session_id, has_finding_id,
}
use secure_mail_scope_sih.Storage.Rows.{All-rows_where, All-update_where}
use secure_mail_scope_sih.Storage.Statements.{
  IsOnTables, exec-Holds, statement-Holds, and_then-Holds,
}
use secure_mail_scope_sih.Storage.Unique.{
  IsUnique, IsUnique-rows_where, IsUnique-update_where, IsUnique-insert_or_replace, IsUnique-insert,
}

unfoldable pub is_some {ℓ} : {A : Type ℓ} → Option A → Bool
is_some none = false
is_some (some a) = true

-- An analysis has a finishing time exactly where its status is a final one.
abbrev pub IsTimed : AnalysisRow → Type 0
IsTimed row = is_some row.finished_at ≡ is_final row.status

pub record WellFormed (db : Database) : Type 0 where
  pub timed : All IsTimed db.analyses
  pub analyses : IsUnique (λ r. r.id) db.analyses
  pub sessions : IsUnique (λ r. r.id) db.sessions
  pub findings : IsUnique (λ r. r.id) db.findings

pub WellFormed-IsOnTables : IsOnTables WellFormed
WellFormed-IsOnTables d rs h = record {
  timed = h.timed;
  analyses = h.analyses;
  sessions = h.sessions;
  findings = h.findings;
}

exec-WellFormed :
    (change : Database → Database) (db : Database)
    → ((d : Database) → WellFormed d → WellFormed (change d))
    → WellFormed db
    → WellFormed (exec change db).1
exec-WellFormed change db k h = exec-Holds WellFormed change db WellFormed-IsOnTables k h

delete_analysis-WellFormed :
    (id : Text) (db : Database) → WellFormed db → WellFormed (delete_analysis id db).1
unfolding delete_analysis delete_sessions delete_findings delete_analysis_row delete_where
delete_analysis-WellFormed id db h =
    exec-WellFormed _ _
      (λ d k. record {
        timed = All-rows_where _ _ d.analyses k.timed;
        analyses = IsUnique-rows_where _ _ d.analyses k.analyses;
        sessions = k.sessions;
        findings = k.findings;
      })
      (exec-WellFormed _ _
        (λ d k. record {
          timed = k.timed;
          analyses = k.analyses;
          sessions = k.sessions;
          findings = IsUnique-rows_where _ _ d.findings k.findings;
        })
        (exec-WellFormed _ db
          (λ d k. record {
            timed = k.timed;
            analyses = k.analyses;
            sessions = IsUnique-rows_where _ _ d.sessions k.sessions;
            findings = k.findings;
          })
          h))

update_analysis-WellFormed :
    (id : Text) (change : AnalysisRow → AnalysisRow) (db : Database)
    → ((row : AnalysisRow) → (change row).id ≡ row.id)
    → ((row : AnalysisRow) → IsTimed row → IsTimed (change row))
    → WellFormed db
    → WellFormed (update_analysis id change db).1
unfolding update_analysis
update_analysis-WellFormed id change db named timed h =
    exec-WellFormed _ db
      (λ d k. record {
        timed = All-update_where IsTimed _ change d.analyses timed k.timed;
        analyses = IsUnique-update_where _ _ change d.analyses named k.analyses;
        sessions = k.sessions;
        findings = k.findings;
      })
      h

status-IsTimed :
    (now : ℕ) (status : AnalysisStatus)
    → is_some (if is_final status then some now else none) ≡ is_final status
unfolding is_some is_final
status-IsTimed now status = elim (Bool-cases (is_final status)) [
  | inl e ↦ rw e refl
  | inr e ↦ rw e refl
]

create_analysis-WellFormed :
    (a : Analysis) (db : Database)
    → is_final a.status ≡ false
    → WellFormed db
    → WellFormed (create_analysis a db).1
unfolding create_analysis insert_unique created_row is_analysis is_some
create_analysis-WellFormed a db queued h =
    let k = statement-Holds WellFormed db WellFormed-IsOnTables h in
    let ready = (statement db).1 in
    elim (Bool-cases (statement db).0) [
      | inl e ↦ rw e k
      | inr e ↦ elim (Bool-cases (any (λ r. text_eq r.id a.id) ready.analyses)) [
        | inl d ↦ rw (e, d) k
        | inr d ↦
            rw (e, d)
              (record {
                timed = All-append IsTimed ready.analyses _ k.timed (sym queued, tt);
                analyses = IsUnique-insert (λ r. r.id) (created_row a) ready.analyses d k.analyses;
                sessions = k.sessions;
                findings = k.findings;
              })
      ]
    ]

save_finding-WellFormed :
    (json : Codecs) (id : Text) (f : Finding) (db : Database)
    → WellFormed db
    → WellFormed (save_finding json id f db).1
unfolding save_finding put_finding has_finding_id
save_finding-WellFormed json id f db h =
    exec-WellFormed _ db
      (λ d k. record {
        timed = k.timed;
        analyses = k.analyses;
        sessions = k.sessions;
        findings =
            IsUnique-insert_or_replace (λ r. r.id) (finding_row json id f) d.findings k.findings;
      })
      h

save_findings-WellFormed :
    (json : Codecs) (id : Text) (fs : List Finding) (db : Database)
    → WellFormed db
    → WellFormed (save_findings json id fs db).1
unfolding save_findings
save_findings-WellFormed json id [] db h = h
save_findings-WellFormed json id (f ∷ fs) db h =
    and_then-Holds WellFormed (save_finding json id f db) _ (save_finding-WellFormed json id f db h)
      (λ d k. save_findings-WellFormed json id fs d k)

save_session-WellFormed :
    (json : Codecs) (s : EmailSession) (db : Database)
    → WellFormed db
    → WellFormed (save_session json s db).1
unfolding save_session put_session has_session_id
save_session-WellFormed json s db h =
    and_then-Holds WellFormed (exec (put_session (session_row json s)) db) _
      (exec-WellFormed (put_session (session_row json s)) db
        (λ d k. record {
          timed = k.timed;
          analyses = k.analyses;
          sessions =
              IsUnique-insert_or_replace (λ r. r.id) (session_row json s) d.sessions k.sessions;
          findings = k.findings;
        })
        h)
      (λ d k. save_findings-WellFormed json s.analysis_id s.findings d k)

-- What the backend does to the database: analyses are created in a status that is not final, and
-- aggregates are written with one that is.
pub data Write (json : Codecs) (breakdowns : Codec (List (Text × ℕ)))
    : Database → Database → Type 0 where
  created :
      (a : Analysis) (db : Database)
      → is_final a.status ≡ false
      → Write json breakdowns db (create_analysis a db).1
  deleted : (id : Text) (db : Database) → Write json breakdowns db (delete_analysis id db).1
  status_set :
      (now : ℕ) (id : Text) (status : AnalysisStatus) (message : Text) (db : Database)
      → Write json breakdowns db (update_analysis_status now id status message db).1
  stats_set :
      (id : Text) (packets sessions : ℕ) (db : Database)
      → Write json breakdowns db (update_analysis_stats id packets sessions db).1
  aggregate_set :
      (now : ℕ) (id : Text) (status : AnalysisStatus) (score pct : Ratio) (counts : List (Text × ℕ))
      (db : Database)
      → is_final status ≡ true
      → Write json breakdowns db
          (update_analysis_aggregate breakdowns now id status score pct counts db).1
  assessment_set :
      (id text : Text) (db : Database)
      → Write json breakdowns db (update_global_ai_assessment id text db).1
  session_saved :
      (s : EmailSession) (db : Database) → Write json breakdowns db (save_session json s db).1
  finding_saved :
      (id : Text) (f : Finding) (db : Database)
      → Write json breakdowns db (save_finding json id f db).1

-- Every write keeps the invariant: a finishing time stands exactly at the final statuses, and no two
-- rows of a table share their primary key.
pub Write-WellFormed :
    (json : Codecs) (breakdowns : Codec (List (Text × ℕ))) {d e : Database}
    → Write json breakdowns d e
    → WellFormed d
    → WellFormed e
unfolding update_analysis_status update_analysis_stats update_analysis_aggregate
    update_global_ai_assessment is_some
Write-WellFormed json breakdowns (created a db k) h = create_analysis-WellFormed a db k h
Write-WellFormed json breakdowns (deleted id db) h = delete_analysis-WellFormed id db h
Write-WellFormed json breakdowns (status_set now id status message db) h =
    update_analysis-WellFormed id _ db (λ row. refl) (λ row k. status-IsTimed now status) h
Write-WellFormed json breakdowns (stats_set id packets sessions db) h =
    update_analysis-WellFormed id _ db (λ row. refl) (λ row k. k) h
Write-WellFormed json breakdowns (aggregate_set now id status score pct counts db final) h =
    update_analysis-WellFormed id _ db (λ row. refl) (λ row k. sym final) h
Write-WellFormed json breakdowns (assessment_set id text db) h =
    update_analysis-WellFormed id _ db (λ row. refl) (λ row k. k) h
Write-WellFormed json breakdowns (session_saved s db) h = save_session-WellFormed json s db h
Write-WellFormed json breakdowns (finding_saved id f db) h = save_finding-WellFormed json id f db h
