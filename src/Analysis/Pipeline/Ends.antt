-- ===== src/Analysis/Pipeline/Ends.antt =====
-- How a run of the pipeline of backend/internal/analysis/service.go ends.
use secure_mail_scope_sih.Common.{
  ℕ, ◌≡◌, refl, ◌⊎◌, inl, inr, true, false, not, ◌&&◌, some, List, [], ◌∷◌, ◌++◌, arith, Bool-cases,
  Text, length,
}
use secure_mail_scope_sih.Models.{AnalysisStatus, completed, failed, Analysis, EmailSession}
use secure_mail_scope_sih.Session.Reassembler.{ReassembledStream}
use secure_mail_scope_sih.Storage.Tables.{Reply}
use secure_mail_scope_sih.Storage.Analyses.{get_analysis}
use secure_mail_scope_sih.Analysis.Pipeline.World.{Outside, Event, progress, World, send, store}
use secure_mail_scope_sih.Analysis.Pipeline.Build.{has_email, is_live, tls_by_key, build_sessions}
use secure_mail_scope_sih.Analysis.Pipeline.Tally.{Tally, kept_tally}
use secure_mail_scope_sih.Analysis.Pipeline.Run.{
  drop_capture, assess_streams, examine, finish, execute_packets, execute_found, execute_read,
  execute_pipeline, report_failure, run_analysis,
}

-- The last event that was sent says that the analysis ended, with the given status, at 100 percent.
pub Announces : Text → AnalysisStatus → World → Type 0
Announces id status w =
    (before : List Event) × (text : Text) × (w.events ≡ before ++ progress id status 100 text ∷ [])

-- The run dropped its capture: the file is removed, it is a live one, and no stream is one of mail.
pub IsDropped : Outside → Analysis → World → Type 0
IsDropped outside analysis w =
    (before : List Text) × (packets : ℕ) × (streams : List ReassembledStream) × (outside.read
        analysis.pcap_path
      ≡ inr (packets, streams))
    × (is_live analysis ≡ true)
    × (has_email streams ≡ false)
    × (w.removed ≡ before ++ analysis.pcap_path ∷ [])

finish-Announces :
    (outside : Outside) (analysis : Analysis) (id : Text) (streams : ℕ)
    (sessions merged : List EmailSession) (kept : Tally) (w : World)
    → Announces id completed (finish outside analysis id streams sessions merged kept w)
unfolding finish send store Announces
finish-Announces outside analysis id streams sessions merged kept w = (_, _, refl)

examine-Ends :
    (outside : Outside) (analysis : Analysis) (id : Text) (packets : ℕ)
    (streams : List ReassembledStream) (w : World)
    → outside.read analysis.pcap_path ≡ inr (packets, streams)
    → Announces id completed (examine outside analysis id packets streams w)
      ⊎ IsDropped outside analysis (examine outside analysis id packets streams w)
unfolding examine drop_capture assess_streams IsDropped
examine-Ends outside analysis id packets streams w e =
    let sessions =
      build_sessions outside analysis id (tls_by_key outside analysis.pcap_path) 0 streams in
    let run = outside.ai_run sessions in
    elim (Bool-cases (not (has_email streams) && is_live analysis)) [
      | inl d ↦ rw d (inr (_, packets, streams, e, ground (arith, d), ground (arith, d), refl))
      | inr d ↦ rw d (
          inl (
            finish-Announces outside analysis id (length streams) sessions _
              (kept_tally run sessions) _))
    ]

report_failure-Announces :
    (outside : Outside) (id text : Text) (w : World)
    → Announces id failed (report_failure outside id (some text, w))
unfolding report_failure send store Announces
report_failure-Announces outside id text w = (_, _, refl)

-- How a run ends that read the packets.
packets-Ends :
    (outside : Outside) (analysis : Analysis) (id : Text) (w : World)
    (r : Text ⊎ ℕ × List ReassembledStream)
    → outside.read analysis.pcap_path ≡ r
    → let ended = report_failure outside id (execute_packets outside id analysis r w) in
      Announces id completed ended ⊎ (Announces id failed ended ⊎ IsDropped outside analysis ended)
unfolding execute_packets report_failure
packets-Ends outside analysis id w (inl text) e =
    inr (inl (report_failure-Announces outside id _ w))
packets-Ends outside analysis id w (inr (packets, streams)) e =
    elim (examine-Ends outside analysis id packets streams w e) [
      | inl done ↦ inl done
      | inr dropped ↦ inr (inr dropped)
    ]

-- How a run ends, by what `GetAnalysis` answers.
read-Ends :
    (outside : Outside) (id : Text) (w : World) (r : Reply Analysis)
    → let ended = report_failure outside id (execute_read outside id r w) in
      Announces id completed ended
      ⊎ (Announces id failed ended
          ⊎ ((analysis : Analysis) × (r ≡ inr analysis) × IsDropped outside analysis ended))
unfolding execute_read execute_found
read-Ends outside id w (inl e) = inr (inl (report_failure-Announces outside id _ w))
read-Ends outside id w (inr analysis) = elim (packets-Ends outside analysis id _ _ refl) [
  | inl done ↦ inl done
  | inr (inl unread) ↦ inr (inl unread)
  | inr (inr dropped) ↦ inr (inr (analysis, refl, dropped))
]

-- Every run ends: it announces the status COMPLETED or FAILED at 100 percent as its last event, or it
-- dropped a live capture in which it found no mail. The driver and the AI engine may fail anywhere.
pub run_analysis-Ends :
    (outside : Outside) (id : Text) (w : World)
    → Announces id completed (run_analysis outside id w)
      ⊎ (Announces id failed (run_analysis outside id w)
          ⊎ ((analysis : Analysis) × ((get_analysis outside.breakdowns id w.db).0 ≡ inr analysis)
              × IsDropped outside analysis (run_analysis outside id w)))
unfolding run_analysis execute_pipeline
run_analysis-Ends outside id w = read-Ends outside id _ _
