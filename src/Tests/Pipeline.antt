-- ===== src/Tests/Pipeline.antt =====
-- A small run of the pipeline of backend/internal/analysis/service.go.
use secure_mail_scope_sih.Common.{
  lookup, text_key, ◌*◌, ◌≤◌, ◌≡◌, refl, ◌≢◌, ◌↔◌, ◌⊎◌, inr, true, false, none, List, [], ◌∷◌, All,
  Text, codes, decimal,
}
use secure_mail_scope_sih.Models.{critical, completed, failed, EmailSession, Analysis}
use secure_mail_scope_sih.Storage.Tables.{rows_where}
use secure_mail_scope_sih.Storage.Analyses.{is_analysis, is_final, get_analysis, severity_of_score}
use secure_mail_scope_sih.Storage.WellFormed.{is_some}
use secure_mail_scope_sih.X509.{Parse}
use secure_mail_scope_sih.Analysis.Scores.{max_severity, rate_sessions}
use secure_mail_scope_sih.Analysis.Queue.{new_ai_queue}
use secure_mail_scope_sih.Analysis.Pipeline.World.{AiRun, reported, Outside, World}
use secure_mail_scope_sih.Analysis.Pipeline.Build.{is_live, build_sessions, fs_count}
use secure_mail_scope_sih.Analysis.Pipeline.Tally.{Tally, count_of, final_tally}
use secure_mail_scope_sih.Analysis.Pipeline.Run.{new_analysis, after_ai, per_stream, run_analysis}
use secure_mail_scope_sih.Analysis.Pipeline.Ends.{Announces, IsDropped, run_analysis-Ends}
use secure_mail_scope_sih.Analysis.Pipeline.Settled.{run_analysis-IsSettled}
use secure_mail_scope_sih.Analysis.Pipeline.Bounds.{aggregate-bounds, overall_severity-critical}
use secure_mail_scope_sih.Analysis.Pipeline.Report.{
  counted, finding_total, severity_total, after_ai-grows, final_tally_lem,
}
use secure_mail_scope_sih.Analysis.Pipeline.Live.{is_uuid_byte, new_analysis-is_live}
use secure_mail_scope_sih.Tests.Streams.{first_stream}
use secure_mail_scope_sih.Tests.Storage.{
  json, breakdowns, finding_1, finding_2, saved_session, two_analyses, two_analyses-WellFormed,
}

-- The AI engine reports one more finding for each session.
abbrev reports_one : AiRun
reports_one = reported (codes "{\"event\"" ∷ []) (record {
  global_ai_assessment = codes "fine";
  sessions =
      record {
        session_id = [];
        go_session_id = [];
        is_anomalous = true;
        anomaly_score = codes "0.5";
        findings = finding_2 ∷ [];
        ai_assessment = [];
        ai_assessment_structured = none;
        remediations = [];
      }
      ∷ [];
})

abbrev outside : Outside
outside = record {
  read = λ path. inr (2, first_stream ∷ []);
  tshark = λ path. none;
  parse_certificate = λ der. Parse.failed (codes "no certificate");
  hex_decode = λ text. none;
  format_date = decimal;
  format_time = decimal;
  unix = λ t. t;
  base = λ path. path;
  uuid = λ sid i. codes "0123456789abcdef";
  ai_run = λ sessions. reports_one;
  provider_at = λ i. true;
  describe = λ e. codes "no rows";
  json = json;
  breakdowns = breakdowns;
  now = 7;
}

abbrev world : World
world = record { db = two_analyses; queue = new_ai_queue [] []; events = []; removed = [] }

abbrev a_id : Text
a_id = codes "a"

run_analysis-Ends_example :
    Announces a_id completed (run_analysis outside a_id world)
    ⊎ (Announces a_id failed (run_analysis outside a_id world)
        ⊎ ((analysis : Analysis) × ((get_analysis breakdowns a_id two_analyses).0 ≡ inr analysis)
            × IsDropped outside analysis (run_analysis outside a_id world)))
run_analysis-Ends_example = run_analysis-Ends outside a_id world

run_analysis-IsSettled_example :
    All
      (λ row. (is_final row.status ≡ true) × (is_some row.finished_at ≡ true))
      (rows_where (is_analysis a_id) (run_analysis outside a_id world).db.analyses)
run_analysis-IsSettled_example =
    run_analysis-IsSettled outside a_id world two_analyses-WellFormed refl

abbrev uploaded : Analysis
uploaded = new_analysis (codes "0a1b2c3d-ffff") (codes "live-capture-1.pcap") 5

aggregate-bounds_example :
    let sessions = build_sessions outside uploaded a_id [] 0 (first_stream ∷ []) in
    let merged = (after_ai outside a_id reports_one sessions world).0 in
    let score = per_stream (rate_sessions merged).1 1 in
    let pct = per_stream (fs_count sessions * 100) 1 in
    (score.numerator ≤ 9 * score.denominator) × (pct.numerator ≤ 100 * pct.denominator)
aggregate-bounds_example =
    aggregate-bounds outside uploaded a_id [] (first_stream ∷ []) reports_one world

abbrev two_sessions : List EmailSession
two_sessions = saved_session ∷ record saved_session { findings = finding_1 ∷ [] } ∷ []

overall_severity-critical_example :
    (severity_of_score (per_stream (rate_sessions two_sessions).1 2) ≡ critical)
    ↔ ((two_sessions ≢ []) × All (λ s. (max_severity s.findings).0 ≡ 9) two_sessions)
overall_severity-critical_example = overall_severity-critical two_sessions

after_ai-grows_example :
    (rate_sessions two_sessions).1
    ≤ (rate_sessions (after_ai outside a_id reports_one two_sessions world).0).1
after_ai-grows_example = after_ai-grows outside a_id reports_one two_sessions world

abbrev kept_before : Tally
kept_before = record { total_risk = 30; breakdown = (codes "HIGH", 4) ∷ [] }

final_tally_lem_example :
    let tally = final_tally two_sessions kept_before in
    (count_of (lookup (codes "HIGH") tally.breakdown) ≡ severity_total (codes "HIGH") two_sessions)
    × (counted tally.breakdown ≡ finding_total two_sessions)
    × (tally.total_risk ≡ (rate_sessions two_sessions).1)
final_tally_lem_example = final_tally_lem two_sessions kept_before (codes "HIGH")

new_analysis-is_live_example : is_live uploaded ≡ false
unfolding is_uuid_byte codes
new_analysis-is_live_example =
    new_analysis-is_live (codes "0a1b2c3d-ffff") (codes "live-capture-1.pcap") 5 (
      refl,
      (
        refl,
        (refl, (refl, (refl, (refl, (refl, (refl, (refl, (refl, (refl, (refl, (refl, tt))))))))))),
      ),
    )
