-- ===== src/Analysis/Pipeline/Tally.antt =====
-- The totals that `ExecutePipeline` of backend/internal/analysis/service.go keeps in `totalRiskScore` and
-- `severityBreakdown`: counted while the sessions are built and merged, set back, and counted again.
use secure_mail_scope_sih.Common.{
  ℕ, ◌+◌, Option, none, some, List, [], ◌∷◌, Text, text_key, lookup, insert,
}
use secure_mail_scope_sih.Models.{Finding, EmailSession, severity_text}
use secure_mail_scope_sih.Analysis.Scores.{max_severity}
use secure_mail_scope_sih.Analysis.Pipeline.World.{
  AiSession, AiRun, not_started, ended_badly, without_report, reported,
}
use secure_mail_scope_sih.Analysis.Pipeline.Merge.{first_match}

-- The value of a key in a map of counts: 0 for one that is not there
unfoldable pub count_of : Option ℕ → ℕ
count_of none = 0
count_of (some n) = n

-- `severityBreakdown[string(f.Severity)]++`
unfoldable pub count_finding : Finding → List (Text × ℕ) → List (Text × ℕ)
unfolding count_of
count_finding f counts =
    let key = severity_text f.severity in insert key (count_of (lookup key counts) + 1) counts

unfoldable pub count_findings : List Finding → List (Text × ℕ) → List (Text × ℕ)
unfolding count_finding
count_findings [] counts = counts
count_findings (f ∷ fs) counts = count_findings fs (count_finding f counts)

-- `totalRiskScore` and `severityBreakdown`
pub record Tally : Type 0 where
  pub total_risk : ℕ
  pub breakdown : List (Text × ℕ)

abbrev empty_tally : Tally
empty_tally = record { total_risk = 0; breakdown = [] }

-- "Track aggregate stats", of the sessions as the rules rate them
unfoldable pub tally_built : List EmailSession → Tally → Tally
unfolding count_findings
tally_built [] t = t
tally_built (s ∷ ss) t = tally_built ss (record {
  total_risk = t.total_risk + s.risk_score;
  breakdown = count_findings s.findings t.breakdown;
})

unfoldable pub tally_match : Option AiSession → Tally → Tally
unfolding count_findings
tally_match none t = t
tally_match (some a) t = record t { breakdown = count_findings a.findings t.breakdown }

-- The count of the findings that the AI engine adds
unfoldable pub tally_merged : List AiSession → List EmailSession → Tally → Tally
unfolding tally_match
tally_merged found [] t = t
tally_merged found (s ∷ ss) t = tally_merged found ss (tally_match (first_match s found) t)

unfoldable pub tally_ai : AiRun → List EmailSession → Tally → Tally
unfolding tally_merged
tally_ai (not_started text) ss t = t
tally_ai (ended_badly lines) ss t = t
tally_ai (without_report lines) ss t = t
tally_ai (reported lines report) ss t = tally_merged report.sessions ss t

-- The totals behind the AI engine's run, of the sessions as they were built
unfoldable pub kept_tally : AiRun → List EmailSession → Tally
unfolding tally_built tally_ai
kept_tally run sessions = tally_ai run sessions (tally_built sessions empty_tally)

-- `totalRiskScore = 0` and `severityBreakdown = make(map[string]int)`
unfoldable pub reset_tally : Tally → Tally
reset_tally t = record t { total_risk = 0; breakdown = [] }

-- The counts of the loop that rates and saves the merged sessions
unfoldable pub tally_rated : List EmailSession → Tally → Tally
unfolding count_findings
tally_rated [] t = t
tally_rated (s ∷ ss) t = tally_rated ss (record {
  total_risk = t.total_risk + (max_severity s.findings).0;
  breakdown = count_findings s.findings t.breakdown;
})

-- "Recalculate max severity": the totals that are stored, from those that were kept so far
unfoldable pub final_tally : List EmailSession → Tally → Tally
unfolding reset_tally tally_rated
final_tally merged t = tally_rated merged (reset_tally t)
