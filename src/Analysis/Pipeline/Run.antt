-- ===== src/Analysis/Pipeline/Run.antt =====
-- `CreateAnalysis`, `ExecutePipeline` and `RunAnalysisAsync` of backend/internal/analysis/service.go.
use secure_mail_scope_sih.Common.{
  ℕ, zero, suc, ◌+◌, ◌*◌, not, ◌&&◌, Option, none, some, List, [], ◌∷◌, ◌++◌, ◌⊎◌, inl, inr,
  if◌then◌else◌, length, take, Text, codes, has_prefix,
}
use secure_mail_scope_sih.Models.{
  queued, parsing, reassembling, detecting_protocols, analyzing_tls, assessing_risk, completed,
  failed, info, AnalysisStatus, Ratio, Analysis, EmailSession,
}
use secure_mail_scope_sih.Session.Reassembler.{ReassembledStream}
use secure_mail_scope_sih.Storage.Tables.{Reply}
use secure_mail_scope_sih.Storage.Analyses.{
  delete_analysis, get_analysis, update_analysis_status, update_analysis_stats,
  update_analysis_aggregate, update_global_ai_assessment,
}
use secure_mail_scope_sih.Storage.Sessions.{save_session}
use secure_mail_scope_sih.Analysis.Queue.{enqueue}
use secure_mail_scope_sih.Analysis.Scores.{rate_sessions}
use secure_mail_scope_sih.Analysis.Pipeline.World.{
  AiRun, not_started, ended_badly, without_report, reported, Outside, progress, raw_event, World,
  send, store,
}
use secure_mail_scope_sih.Analysis.Pipeline.Build.{
  has_email, is_live, tls_by_key, build_sessions, fs_count,
}
use secure_mail_scope_sih.Analysis.Pipeline.Merge.{merge_sessions}
use secure_mail_scope_sih.Analysis.Pipeline.Tally.{Tally, kept_tally, final_tally}

-- `filepath.Join("/data", "analyses", id, "capture.pcap")`
unfoldable pub stored_path : Text → Text
stored_path id = codes "/data/analyses/" ++ (id ++ codes "/capture.pcap")

-- The analysis that `CreateAnalysis` makes of a new UUID, at the instant `now`
unfoldable pub new_analysis : Text → Text → ℕ → Analysis
unfolding stored_path
new_analysis uuid filename now =
    let id = codes "analysis-" ++ take 8 uuid in
    record {
      id = id;
      pcap_path = stored_path id;
      pcap_filename = filename;
      status = queued;
      started_at = now;
      finished_at = none;
      total_packets = 0;
      total_sessions = 0;
      overall_score = record { numerator = 0; denominator = 0 };
      overall_severity = info;
      forward_secrecy_pct = record { numerator = 0; denominator = 0 };
      anomaly_count = 0;
      severity_breakdown = [];
      error = [];
      global_ai_assessment = [];
    }

-- `emitEvent` and `UpdateAnalysisStatus` of one step
unfoldable pub enter : Outside → Text → AnalysisStatus → ℕ → Text → World → World
unfolding send store
enter outside id status percent message w =
    store (update_analysis_status outside.now id status [])
      (send (progress id status percent message) w)

-- The lines that the AI engine prints: those that start an event are sent on.
unfoldable pub forward_line : Text → World → World
forward_line line w = if has_prefix line (codes "{\"event\"") then send (raw_event line) w else w

unfoldable pub forward_lines : List Text → World → World
unfolding forward_line
forward_lines [] w = w
forward_lines (line ∷ lines) w = forward_lines lines (forward_line line w)

-- "Run AI Engine": the sessions with what its report adds, if there is one.
unfoldable pub after_ai :
    Outside → Text → AiRun → List EmailSession → World → List EmailSession × World
unfolding forward_lines
after_ai outside id (not_started text) sessions w =
    (sessions, send (progress id assessing_risk 95 (codes "AI Engine failed to start: " ++ text)) w)
after_ai outside id (ended_badly lines) sessions w = (
  sessions,
  send (progress id assessing_risk 95 (codes "AI Engine failed, falling back to rule engine"))
      (forward_lines lines w),
)
after_ai outside id (without_report lines) sessions w = (sessions, forward_lines lines w)
after_ai outside id (reported lines report) sessions w = (
  merge_sessions outside.uuid report.sessions sessions,
  store (update_global_ai_assessment id report.global_ai_assessment) (forward_lines lines w),
)

-- "Enqueue session for AI assessment if active provider exists"
unfoldable pub offer : Outside → ℕ → EmailSession → World → World
offer outside idx s w =
    if outside.provider_at idx then record w { queue = enqueue s w.queue } else w

-- The loop that saves the rated sessions and hands them to the AI queue, from the number `idx`
unfoldable pub save_rated : Outside → ℕ → List EmailSession → World → World
unfolding store offer
save_rated outside idx [] w = w
save_rated outside idx (s ∷ ss) w =
    save_rated outside (idx + 1) ss (offer outside idx s (store (save_session outside.json s) w))

-- A quotient by the number of streams: 0.0 where there are none.
unfoldable pub per_stream : ℕ → ℕ → Ratio
per_stream n zero = record { numerator = 0; denominator = 0 }
per_stream n (suc streams) = record { numerator = n; denominator = suc streams }

-- "Step 6": the aggregate of the sessions, the status COMPLETED and the last event. `sessions` are
-- those before the AI engine ran, of which the ones with forward secrecy are counted; `kept` are the
-- totals that were counted so far.
unfoldable pub finish :
    Outside → Analysis → Text → ℕ → List EmailSession → List EmailSession → Tally → World → World
unfolding save_rated per_stream final_tally
finish outside analysis id streams sessions merged kept w =
    let tally = final_tally merged kept in
    let saved = save_rated outside 0 (rate_sessions merged).0 w in
    send
      (progress id completed 100
        (codes "Completed analysis of " ++ outside.base analysis.pcap_path))
      (store
        (update_analysis_aggregate outside.breakdowns outside.now id completed
          (per_stream tally.total_risk streams) (per_stream (fs_count sessions * 100) streams)
          tally.breakdown)
        saved)

-- "Drop garbage live captures to keep the DB clean"
unfoldable pub drop_capture : Text → Analysis → World → World
unfolding store
drop_capture id analysis w =
    let dropped = store (delete_analysis id) w in
    record dropped { removed = dropped.removed ++ analysis.pcap_path ∷ [] }

-- The states and events from TShark's inspection up to the AI engine
unfoldable pub announce_assessment : Outside → Text → World → World
unfolding enter send
announce_assessment outside id w =
    send (progress id assessing_risk 90 (codes "Running AI Anomaly Detection (Isolation Forest)")) (
      enter outside id assessing_risk 85 (codes "Evaluating security findings")
        (enter outside id analyzing_tls 70 (codes "Inspecting TLS handshakes via TShark") w))

-- The steps from TShark's inspection on
unfoldable pub assess_streams : Outside → Text → Analysis → List ReassembledStream → World → World
unfolding announce_assessment after_ai finish kept_tally
assess_streams outside id analysis streams w =
    let sessions =
      build_sessions outside analysis id (tls_by_key outside analysis.pcap_path) 0 streams in
    let run = outside.ai_run sessions in
    let (merged, merging) = after_ai outside id run sessions (announce_assessment outside id w) in
    finish outside analysis id (length streams) sessions merged (kept_tally run sessions) merging

-- The steps up to the detection of the protocols
unfoldable pub detect_streams : Outside → Text → ℕ → List ReassembledStream → World → World
unfolding enter store
detect_streams outside id packets streams w =
    enter outside id detecting_protocols 50 (codes "Identifying SMTP/IMAP/POP3 protocols") (
      store (update_analysis_stats id packets (length streams))
        (enter outside id reassembling 30 (codes "Reconstructing TCP streams") w))

-- The steps from the streams on: a live capture without mail is dropped.
unfoldable pub examine : Outside → Analysis → Text → ℕ → List ReassembledStream → World → World
unfolding drop_capture assess_streams detect_streams
examine outside analysis id packets streams w =
    let detecting = detect_streams outside id packets streams w in
    if not (has_email streams) && is_live analysis
    then drop_capture id analysis detecting
    else assess_streams outside id analysis streams detecting

-- What follows the reading of the packets: an error's text, if there is one.
unfoldable pub execute_packets :
    Outside → Text → Analysis → Text ⊎ ℕ × List ReassembledStream → World → Option Text × World
unfolding examine
execute_packets outside id analysis (inl text) w =
    (some (codes "packet reading failed: " ++ text), w)
execute_packets outside id analysis (inr (packets, streams)) w =
    (none, examine outside analysis id packets streams w)

-- `ExecutePipeline` behind `GetAnalysis`
unfoldable pub execute_found : Outside → Text → Analysis → World → Option Text × World
unfolding enter execute_packets
execute_found outside id analysis w =
    execute_packets outside id analysis (outside.read analysis.pcap_path)
      (enter outside id parsing 10 (codes "Parsing PCAP packets") w)

unfoldable pub execute_read : Outside → Text → Reply Analysis → World → Option Text × World
unfolding execute_found
execute_read outside id (inl e) w = (some (outside.describe e), w)
execute_read outside id (inr analysis) w = execute_found outside id analysis w

-- `ExecutePipeline`
unfoldable pub execute_pipeline : Outside → Text → World → Option Text × World
unfolding execute_read
execute_pipeline outside id w =
    let (found, asked) = get_analysis outside.breakdowns id w.db in
    execute_read outside id found (record w { db = asked })

unfoldable pub report_failure : Outside → Text → Option Text × World → World
unfolding send store
report_failure outside id (none, w) = w
report_failure outside id (some text, w) =
    send (progress id failed 100 (codes "Error: " ++ text))
      (store (update_analysis_status outside.now id failed text) w)

-- `RunAnalysisAsync`, of one analysis on its own
unfoldable pub run_analysis : Outside → Text → World → World
unfolding execute_pipeline report_failure
run_analysis outside id w = report_failure outside id (execute_pipeline outside id w)
