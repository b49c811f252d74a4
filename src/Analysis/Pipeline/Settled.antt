-- ===== src/Analysis/Pipeline/Settled.antt =====
-- What a run of the pipeline of backend/internal/analysis/service.go leaves in the database.
use secure_mail_scope_sih.Common.{
  ℕ, ◌≡◌, refl, ◌∙◌, ◌⊎◌, inl, inr, true, false, not, ◌&&◌, List, [], ◌∷◌, arith, Bool-cases, All,
  Text, codes, length,
}
use secure_mail_scope_sih.Models.{parsing, completed, failed, Analysis, EmailSession}
use secure_mail_scope_sih.Session.Reassembler.{ReassembledStream}
use secure_mail_scope_sih.Storage.Tables.{AnalysisRow, Database, Reply, rows_where, update_where}
use secure_mail_scope_sih.Storage.Analyses.{
  get_analysis, is_analysis, is_final, delete_analysis, delete_analysis_row, delete_findings,
  delete_sessions, update_analysis, update_analysis_status, update_analysis_stats,
  update_analysis_aggregate, update_global_ai_assessment,
}
use secure_mail_scope_sih.Storage.Statements.{IsWilling, exec-IsWilling, query_row-Holds}
use secure_mail_scope_sih.Storage.Rows.{NoRow-delete_where}
use secure_mail_scope_sih.Storage.Willing.{
  delete_analysis-IsWilling, update_analysis-IsWilling, get_analysis-IsWilling,
  save_session-IsWilling,
}
use secure_mail_scope_sih.Storage.WellFormed.{
  is_some, IsTimed, WellFormed, WellFormed-IsOnTables, Write-WellFormed, deleted, status_set,
  stats_set, aggregate_set, assessment_set, session_saved,
}
use secure_mail_scope_sih.Analysis.Scores.{rate_sessions}
use secure_mail_scope_sih.Analysis.Pipeline.World.{Outside, World, send, store}
use secure_mail_scope_sih.Analysis.Pipeline.Build.{has_email, is_live, tls_by_key, build_sessions}
use secure_mail_scope_sih.Analysis.Pipeline.Tally.{Tally, kept_tally}
use secure_mail_scope_sih.Analysis.Pipeline.Run.{
  after_ai, finish, drop_capture, announce_assessment, assess_streams, examine, execute_packets,
  execute_found, execute_read, execute_pipeline, report_failure, run_analysis,
}
use secure_mail_scope_sih.Analysis.Pipeline.Keeps.{
  IsKept, enter-Holds, after_ai-Holds, save_rated-Holds, announce_assessment-Holds,
  detect_streams-Holds, run_analysis-Holds,
}

WellFormed-IsKept : (outside : Outside) (id : Text) → IsKept outside id WellFormed
unfolding get_analysis is_final
WellFormed-IsKept outside id = record {
  got = λ d h. query_row-Holds WellFormed _ d WellFormed-IsOnTables h;
  status_set = λ status text d h.
      Write-WellFormed outside.json outside.breakdowns (status_set outside.now id status text d) h;
  stats_set = λ packets streams d h.
      Write-WellFormed outside.json outside.breakdowns (stats_set id packets streams d) h;
  aggregate_set = λ score pct counts d h.
      Write-WellFormed outside.json outside.breakdowns
        (aggregate_set outside.now id completed score pct counts d refl) h;
  assessment_set =
      λ text d h. Write-WellFormed outside.json outside.breakdowns (assessment_set id text d) h;
  deleted = λ d h. Write-WellFormed outside.json outside.breakdowns (deleted id d) h;
  saved = λ s d h. Write-WellFormed outside.json outside.breakdowns (session_saved s d) h;
}

IsWilling-IsKept : (outside : Outside) (id : Text) → IsKept outside id IsWilling
unfolding update_analysis_status update_analysis_stats update_analysis_aggregate
    update_global_ai_assessment
IsWilling-IsKept outside id = record {
  got = λ d h. get_analysis-IsWilling outside.breakdowns id d h;
  status_set = λ status text d h. update_analysis-IsWilling id _ d h;
  stats_set = λ packets streams d h. update_analysis-IsWilling id _ d h;
  aggregate_set = λ score pct counts d h. update_analysis-IsWilling id _ d h;
  assessment_set = λ text d h. update_analysis-IsWilling id _ d h;
  deleted = λ d h. delete_analysis-IsWilling id d h;
  saved = λ s d h. save_session-IsWilling outside.json s d h;
}

-- The stored rows of the analysis have a final status.
abbrev IsSettled : Text → List AnalysisRow → Type 0
IsSettled id = All (λ row. is_analysis id row ≡ true → is_final row.status ≡ true)

update_where-IsSettled :
    (id : Text) (change : AnalysisRow → AnalysisRow) (rows : List AnalysisRow)
    → ((row : AnalysisRow) → is_final (change row).status ≡ true)
    → IsSettled id (update_where (is_analysis id) change rows)
unfolding update_where
update_where-IsSettled id change [] k = tt
update_where-IsSettled id change (row ∷ rows) k = elim (Bool-cases (is_analysis id row)) [
  | inl e ↦ rw e (λ same. k row, update_where-IsSettled id change rows k)
  | inr e ↦ rw e (λ same. absurd (ground (arith, e, same)), update_where-IsSettled id change rows k)
]

update_analysis-IsSettled :
    (id : Text) (change : AnalysisRow → AnalysisRow) (db : Database)
    → IsWilling db
    → ((row : AnalysisRow) → is_final (change row).status ≡ true)
    → IsSettled id (update_analysis id change db).1.analyses
unfolding update_analysis
update_analysis-IsSettled id change db h k =
    rw (exec-IsWilling _ db h) (update_where-IsSettled id change db.analyses k)

delete_analysis-IsSettled :
    (id : Text) (db : Database) → IsWilling db → IsSettled id (delete_analysis id db).1.analyses
unfolding delete_analysis delete_analysis_row delete_findings delete_sessions
delete_analysis-IsSettled id db h =
    let d = delete_sessions id db in
    let e = delete_findings id d in
    rw (exec-IsWilling (delete_sessions id) db h) (
      rw (exec-IsWilling (delete_findings id) d h) (
        rw (exec-IsWilling (delete_analysis_row id) e h)
          (NoRow-IsSettled id _ (NoRow-delete_where (is_analysis id) db.analyses))))
  where
    NoRow-IsSettled :
        (key : Text) (rows : List AnalysisRow)
        → All (λ row. is_analysis key row ≡ false) rows
        → IsSettled key rows
    NoRow-IsSettled key [] k = tt
    NoRow-IsSettled key (row ∷ rows) k =
        (λ same. absurd (ground (arith, k.0, same)), NoRow-IsSettled key rows k.1)

module _ (outside : Outside) (id : Text) where
  abbrev willing : IsKept outside id IsWilling
  willing = IsWilling-IsKept outside id

  finish-IsSettled :
      (analysis : Analysis) (streams : ℕ) (sessions merged : List EmailSession) (kept : Tally)
      (w : World)
      → IsWilling w.db
      → IsSettled id (finish outside analysis id streams sessions merged kept w).db.analyses
  unfolding finish send store update_analysis_aggregate is_final
  finish-IsSettled analysis streams sessions merged kept w h =
      update_analysis-IsSettled id _ _
        (save_rated-Holds outside id IsWilling willing 0 (rate_sessions merged).0 w h) (λ row. refl)

  assess_streams-IsSettled :
      (analysis : Analysis) (streams : List ReassembledStream) (w : World)
      → IsWilling w.db
      → IsSettled id (assess_streams outside id analysis streams w).db.analyses
  unfolding assess_streams
  assess_streams-IsSettled analysis streams w h =
      let sessions =
        build_sessions outside analysis id (tls_by_key outside analysis.pcap_path) 0 streams in
      let run = outside.ai_run sessions in
      let (merged, merging) = after_ai outside id run sessions (announce_assessment outside id w) in
      finish-IsSettled analysis (length streams) sessions merged (kept_tally run sessions) merging (
        after_ai-Holds outside id IsWilling willing run sessions _
          (announce_assessment-Holds outside id IsWilling willing w h))

  examine-IsSettled :
      (analysis : Analysis) (packets : ℕ) (streams : List ReassembledStream) (w : World)
      → IsWilling w.db
      → IsSettled id (examine outside analysis id packets streams w).db.analyses
  unfolding examine drop_capture store
  examine-IsSettled analysis packets streams w h =
      let detecting = detect_streams-Holds outside id IsWilling willing packets streams w h in
      elim (Bool-cases (not (has_email streams) && is_live analysis)) [
        | inl e ↦ rw e (delete_analysis-IsSettled id _ detecting)
        | inr e ↦ rw e (assess_streams-IsSettled analysis streams _ detecting)
      ]

  failure-IsSettled :
      (text : Text) (db : Database)
      → IsWilling db
      → IsSettled id (update_analysis_status outside.now id failed text db).1.analyses
  unfolding update_analysis_status is_final
  failure-IsSettled text db h = update_analysis-IsSettled id _ db h (λ row. refl)

  packets-IsSettled :
      (analysis : Analysis) (r : Text ⊎ ℕ × List ReassembledStream) (w : World)
      → IsWilling w.db
      → IsSettled id
          (report_failure outside id (execute_packets outside id analysis r w)).db.analyses
  unfolding execute_packets report_failure send store
  packets-IsSettled analysis (inl text) w h = failure-IsSettled _ w.db h
  packets-IsSettled analysis (inr (packets, streams)) w h =
      examine-IsSettled analysis packets streams w h

  read-IsSettled :
      (r : Reply Analysis) (w : World)
      → IsWilling w.db
      → IsSettled id (report_failure outside id (execute_read outside id r w)).db.analyses
  unfolding execute_read execute_found report_failure send store
  read-IsSettled (inl e) w h = failure-IsSettled _ w.db h
  read-IsSettled (inr analysis) w h =
      packets-IsSettled analysis _ _
        (enter-Holds outside id IsWilling willing parsing 10 (codes "Parsing PCAP packets") w h)

-- Both halves at each row of the analysis
settled_and_timed :
    (id : Text) (rows : List AnalysisRow)
    → IsSettled id rows
    → All IsTimed rows
    → All
        (λ row. (is_final row.status ≡ true) × (is_some row.finished_at ≡ true))
        (rows_where (is_analysis id) rows)
unfolding rows_where
settled_and_timed id [] s t = tt
settled_and_timed id (row ∷ rows) s t = elim (Bool-cases (is_analysis id row)) [
  | inl e ↦ rw e ((s.0 e, t.0 ∙ s.0 e), settled_and_timed id rows s.1 t.1)
  | inr e ↦ rw e (settled_and_timed id rows s.1 t.1)
]

-- A run of the pipeline keeps the invariant of the database, whatever the driver, the AI engine and
-- the other programs answer.
run_analysis-WellFormed :
    (outside : Outside) (id : Text) (w : World)
    → WellFormed w.db
    → WellFormed (run_analysis outside id w).db
run_analysis-WellFormed outside id w h =
    run_analysis-Holds outside id WellFormed (WellFormed-IsKept outside id) w h

-- From a well-formed database whose driver takes every statement, a run leaves each stored row of the
-- analysis with a final status and a finishing time.
pub run_analysis-IsSettled :
    (outside : Outside) (id : Text) (w : World)
    → WellFormed w.db
    → IsWilling w.db
    → All
        (λ row. (is_final row.status ≡ true) × (is_some row.finished_at ≡ true))
        (rows_where (is_analysis id) (run_analysis outside id w).db.analyses)
unfolding run_analysis execute_pipeline
run_analysis-IsSettled outside id w h willing =
    settled_and_timed id _
      (read-IsSettled outside id _ _ (get_analysis-IsWilling outside.breakdowns id w.db willing))
      (run_analysis-WellFormed outside id w h).timed
