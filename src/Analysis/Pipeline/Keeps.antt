-- ===== src/Analysis/Pipeline/Keeps.antt =====
-- What the pipeline of backend/internal/analysis/service.go keeps of the database, statement by
-- statement.
use secure_mail_scope_sih.Common.{
  ℕ, ◌+◌, inl, inr, not, ◌&&◌, List, [], ◌∷◌, Bool-cases, Text, has_prefix, codes, length, ◌⊎◌,
}
use secure_mail_scope_sih.Models.{
  AnalysisStatus, parsing, reassembling, detecting_protocols, analyzing_tls, assessing_risk,
  completed, failed, Analysis, EmailSession, Ratio,
}
use secure_mail_scope_sih.Session.Reassembler.{ReassembledStream}
use secure_mail_scope_sih.Storage.Tables.{Reply, Database}
use secure_mail_scope_sih.Storage.Analyses.{
  delete_analysis, get_analysis, update_analysis_status, update_analysis_stats,
  update_analysis_aggregate, update_global_ai_assessment,
}
use secure_mail_scope_sih.Storage.Sessions.{save_session}
use secure_mail_scope_sih.Analysis.Scores.{rate_sessions}
use secure_mail_scope_sih.Analysis.Pipeline.World.{
  AiRun, not_started, ended_badly, without_report, reported, Outside, World, send, store,
}
use secure_mail_scope_sih.Analysis.Pipeline.Build.{has_email, is_live, tls_by_key, build_sessions}
use secure_mail_scope_sih.Analysis.Pipeline.Tally.{Tally, kept_tally}
use secure_mail_scope_sih.Analysis.Pipeline.Run.{
  enter, forward_line, forward_lines, after_ai, offer, save_rated, finish, drop_capture,
  announce_assessment, assess_streams, detect_streams, examine, execute_packets, execute_found,
  execute_read, execute_pipeline, report_failure, run_analysis,
}

-- Each statement that the pipeline makes keeps the predicate.
pub record IsKept (outside : Outside) (id : Text) (P : Database → Type 0) : Type 0 where
  pub got : (d : Database) → P d → P (get_analysis outside.breakdowns id d).1
  pub status_set :
      (status : AnalysisStatus) (text : Text) (d : Database)
      → P d
      → P (update_analysis_status outside.now id status text d).1
  pub stats_set :
      (packets streams : ℕ) (d : Database) → P d → P (update_analysis_stats id packets streams d).1
  pub aggregate_set :
      (score pct : Ratio) (counts : List (Text × ℕ)) (d : Database)
      → P d
      → P
          (update_analysis_aggregate outside.breakdowns outside.now id completed score pct counts
            d).1
  pub assessment_set :
      (text : Text) (d : Database) → P d → P (update_global_ai_assessment id text d).1
  pub deleted : (d : Database) → P d → P (delete_analysis id d).1
  pub saved : (s : EmailSession) (d : Database) → P d → P (save_session outside.json s d).1

module _ (outside : Outside) (id : Text) (P : Database → Type 0) (k : IsKept outside id P) where
  pub enter-Holds :
      (status : AnalysisStatus) (percent : ℕ) (text : Text) (w : World)
      → P w.db
      → P (enter outside id status percent text w).db
  unfolding enter send store
  enter-Holds status percent text w h = k.status_set status [] w.db h

  forward_line-Holds : (line : Text) (w : World) → P w.db → P (forward_line line w).db
  unfolding forward_line send
  forward_line-Holds line w h = elim (Bool-cases (has_prefix line (codes "{\"event\""))) [
    | inl e ↦ rw e h
    | inr e ↦ rw e h
  ]

  forward_lines-Holds : (lines : List Text) (w : World) → P w.db → P (forward_lines lines w).db
  unfolding forward_lines
  forward_lines-Holds [] w h = h
  forward_lines-Holds (line ∷ lines) w h =
      forward_lines-Holds lines (forward_line line w) (forward_line-Holds line w h)

  pub after_ai-Holds :
      (run : AiRun) (sessions : List EmailSession) (w : World)
      → P w.db
      → P (after_ai outside id run sessions w).1.db
  unfolding after_ai send store
  after_ai-Holds (not_started text) sessions w h = h
  after_ai-Holds (ended_badly lines) sessions w h = forward_lines-Holds lines w h
  after_ai-Holds (without_report lines) sessions w h = forward_lines-Holds lines w h
  after_ai-Holds (reported lines report) sessions w h =
      k.assessment_set report.global_ai_assessment _ (forward_lines-Holds lines w h)

  offer-Holds : (idx : ℕ) (s : EmailSession) (w : World) → P w.db → P (offer outside idx s w).db
  unfolding offer
  offer-Holds idx s w h = elim (Bool-cases (outside.provider_at idx)) [
    | inl e ↦ rw e h
    | inr e ↦ rw e h
  ]

  pub save_rated-Holds :
      (idx : ℕ) (ss : List EmailSession) (w : World) → P w.db → P (save_rated outside idx ss w).db
  unfolding save_rated store
  save_rated-Holds idx [] w h = h
  save_rated-Holds idx (s ∷ ss) w h =
      save_rated-Holds (idx + 1) ss _ (offer-Holds idx s _ (k.saved s w.db h))

  finish-Holds :
      (analysis : Analysis) (streams : ℕ) (sessions merged : List EmailSession) (kept : Tally)
      (w : World)
      → P w.db
      → P (finish outside analysis id streams sessions merged kept w).db
  unfolding finish send store
  finish-Holds analysis streams sessions merged kept w h =
      k.aggregate_set _ _ _ _ (save_rated-Holds 0 (rate_sessions merged).0 w h)

  pub announce_assessment-Holds : (w : World) → P w.db → P (announce_assessment outside id w).db
  unfolding announce_assessment send
  announce_assessment-Holds w h =
      let inspecting = codes "Inspecting TLS handshakes via TShark" in
      enter-Holds assessing_risk 85 (codes "Evaluating security findings")
        (enter outside id analyzing_tls 70 inspecting w)
        (enter-Holds analyzing_tls 70 inspecting w h)

  assess_streams-Holds :
      (analysis : Analysis) (streams : List ReassembledStream) (w : World)
      → P w.db
      → P (assess_streams outside id analysis streams w).db
  unfolding assess_streams
  assess_streams-Holds analysis streams w h =
      let sessions =
        build_sessions outside analysis id (tls_by_key outside analysis.pcap_path) 0 streams in
      let run = outside.ai_run sessions in
      let (merged, merging) = after_ai outside id run sessions (announce_assessment outside id w) in
      finish-Holds analysis (length streams) sessions merged (kept_tally run sessions) merging
        (after_ai-Holds run sessions _ (announce_assessment-Holds w h))

  pub detect_streams-Holds :
      (packets : ℕ) (streams : List ReassembledStream) (w : World)
      → P w.db
      → P (detect_streams outside id packets streams w).db
  unfolding detect_streams store
  detect_streams-Holds packets streams w h =
      let reassembled = codes "Reconstructing TCP streams" in
      let counted =
        store (update_analysis_stats id packets (length streams))
          (enter outside id reassembling 30 reassembled w) in
      enter-Holds detecting_protocols 50 (codes "Identifying SMTP/IMAP/POP3 protocols") counted
        (k.stats_set packets (length streams) _ (enter-Holds reassembling 30 reassembled w h))

  examine-Holds :
      (analysis : Analysis) (packets : ℕ) (streams : List ReassembledStream) (w : World)
      → P w.db
      → P (examine outside analysis id packets streams w).db
  unfolding examine drop_capture store
  examine-Holds analysis packets streams w h =
      let detecting = detect_streams-Holds packets streams w h in
      elim (Bool-cases (not (has_email streams) && is_live analysis)) [
        | inl e ↦ rw e (k.deleted _ detecting)
        | inr e ↦ rw e (assess_streams-Holds analysis streams _ detecting)
      ]

  packets-Holds :
      (analysis : Analysis) (r : Text ⊎ ℕ × List ReassembledStream) (w : World)
      → P w.db
      → P (report_failure outside id (execute_packets outside id analysis r w)).db
  unfolding execute_packets report_failure send store
  packets-Holds analysis (inl text) w h = k.status_set failed _ w.db h
  packets-Holds analysis (inr (packets, streams)) w h = examine-Holds analysis packets streams w h

  read-Holds :
      (r : Reply Analysis) (w : World)
      → P w.db
      → P (report_failure outside id (execute_read outside id r w)).db
  unfolding execute_read execute_found report_failure send store
  read-Holds (inl e) w h = k.status_set failed _ w.db h
  read-Holds (inr analysis) w h =
      packets-Holds analysis _ _ (enter-Holds parsing 10 (codes "Parsing PCAP packets") w h)

  pub run_analysis-Holds : (w : World) → P w.db → P (run_analysis outside id w).db
  unfolding run_analysis execute_pipeline
  run_analysis-Holds w h = read-Holds _ _ (k.got w.db h)
