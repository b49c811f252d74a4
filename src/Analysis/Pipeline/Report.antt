-- ===== src/Analysis/Pipeline/Report.antt =====
-- What the AI engine's report can change of the ratings that backend/internal/analysis/service.go
-- computes, and what the severity breakdown counts.
use secure_mail_scope_sih.Common.{
  ℕ, suc, ◌+◌, ◌≤◌, ◌≡◌, inl, inr, Option, none, some, List, [], ◌∷◌, ◌++◌, arith, Bool-cases,
  if◌then◌else◌, length, Text, text_eq, text_eq_iff, text_key, lookup, insert, lookup-insert,
}
use secure_mail_scope_sih.Models.{Severity, info, Finding, EmailSession, severity_text}
use secure_mail_scope_sih.Analysis.Scores.{max_severity_from, max_severity, rate_sessions}
use secure_mail_scope_sih.Analysis.Rating.{max_from-grows}
use secure_mail_scope_sih.Analysis.Pipeline.World.{
  AiSession, AiRun, not_started, ended_badly, without_report, reported, Outside, World,
}
use secure_mail_scope_sih.Analysis.Pipeline.Merge.{
  first_match, adopted, take_over, take_over_from, merge_session, merge_sessions,
}
use secure_mail_scope_sih.Analysis.Pipeline.Tally.{
  count_of, count_finding, count_findings, Tally, reset_tally, tally_rated, final_tally,
}
use secure_mail_scope_sih.Analysis.Pipeline.Run.{after_ai}

max_from-append :
    (fs gs : List Finding) (n : ℕ) (s : Severity)
    → (max_severity_from n s fs).0 ≤ (max_severity_from n s (fs ++ gs)).0
unfolding max_severity_from
max_from-append [] gs n s = max_from-grows gs n s
max_from-append (f ∷ fs) gs n s = max_from-append fs gs _ _

take_over_from-grows :
    (uuid : Text → ℕ → Text) (a : Option AiSession) (s : EmailSession)
    → (max_severity s.findings).0 ≤ (max_severity (take_over_from uuid a s).findings).0
unfolding take_over_from take_over max_severity
take_over_from-grows uuid none s = omega arith
take_over_from-grows uuid (some a) s =
    max_from-append s.findings (adopted uuid s.id 0 a.findings) 0 info

merge_sessions-grows :
    (uuid : Text → ℕ → Text) (found : List AiSession) (ss : List EmailSession)
    → (rate_sessions ss).1 ≤ (rate_sessions (merge_sessions uuid found ss)).1
unfolding rate_sessions merge_sessions merge_session
merge_sessions-grows uuid found [] = omega arith
merge_sessions-grows uuid found (s ∷ ss) =
    omega
      (arith, take_over_from-grows uuid (first_match s found) s, merge_sessions-grows uuid found ss)

-- The AI engine cannot lower the total of the risk scores, however it ends and whatever it reports.
pub after_ai-grows :
    (outside : Outside) (id : Text) (run : AiRun) (ss : List EmailSession) (w : World)
    → (rate_sessions ss).1 ≤ (rate_sessions (after_ai outside id run ss w).0).1
unfolding after_ai
after_ai-grows outside id (not_started text) ss w = omega arith
after_ai-grows outside id (ended_badly lines) ss w = omega arith
after_ai-grows outside id (without_report lines) ss w = omega arith
after_ai-grows outside id (reported lines report) ss w =
    merge_sessions-grows outside.uuid report.sessions ss

-- The sum of a breakdown's counts
unfoldable pub counted : List (Text × ℕ) → ℕ
counted [] = 0
counted ((key, n) ∷ m) = n + counted m

unfoldable pub finding_total : List EmailSession → ℕ
finding_total [] = 0
finding_total (s ∷ ss) = length s.findings + finding_total ss

counted-insert :
    (key : Text) (v : ℕ) (m : List (Text × ℕ))
    → counted (insert key v m) + count_of (lookup key m) ≡ counted m + v
unfolding counted insert lookup count_of
counted-insert key v [] = omega arith
counted-insert key v ((j, n) ∷ m) = elim (Bool-cases (text_eq j key)) [
  | inl same ↦ rw same (omega arith)
  | inr other ↦ rw other (omega (arith, counted-insert key v m))
]

-- One more of a severity
counted-finding :
    (f : Finding) (m : List (Text × ℕ)) → counted (count_finding f m) ≡ suc (counted m)
unfolding count_finding
counted-finding f m =
    let key = severity_text f.severity in
    omega (arith, counted-insert key (count_of (lookup key m) + 1) m)

counted-findings :
    (fs : List Finding) (m : List (Text × ℕ))
    → counted (count_findings fs m) ≡ length fs + counted m
unfolding count_findings
counted-findings [] m = omega arith
counted-findings (f ∷ fs) m =
    omega (arith, counted-findings fs (count_finding f m), counted-finding f m)

-- The findings of a severity, by its text
unfoldable pub of_severity : Text → List Finding → ℕ
of_severity key [] = 0
of_severity key (f ∷ fs) =
    (if text_eq (severity_text f.severity) key then 1 else 0) + of_severity key fs

unfoldable pub severity_total : Text → List EmailSession → ℕ
severity_total key [] = 0
severity_total key (s ∷ ss) = of_severity key s.findings + severity_total key ss

count_of-finding :
    (key : Text) (f : Finding) (m : List (Text × ℕ))
    → count_of (lookup key (count_finding f m))
      ≡ (if text_eq (severity_text f.severity) key then 1 else 0) + count_of (lookup key m)
unfolding count_finding count_of
count_of-finding key f m =
    let rated = severity_text f.severity in
    elim (Bool-cases (text_eq rated key)) [
      | inl same ↦
          let p : rated ≡ key = (text_eq_iff rated key).0 same in
          rw (lookup-insert, same, p) (omega arith)
      | inr other ↦ rw (lookup-insert, other) (omega arith)
    ]

count_of-findings :
    (key : Text) (fs : List Finding) (m : List (Text × ℕ))
    → count_of (lookup key (count_findings fs m)) ≡ of_severity key fs + count_of (lookup key m)
unfolding count_findings of_severity
count_of-findings key [] m = omega arith
count_of-findings key (f ∷ fs) m =
    omega (arith, count_of-findings key fs (count_finding f m), count_of-finding key f m)

tally_rated-total_risk :
    (ss : List EmailSession) (t : Tally)
    → (tally_rated ss t).total_risk ≡ (rate_sessions ss).1 + t.total_risk
unfolding tally_rated rate_sessions
tally_rated-total_risk [] t = omega arith
tally_rated-total_risk (s ∷ ss) t = omega (arith, tally_rated-total_risk ss _)

tally_rated-severity :
    (key : Text) (ss : List EmailSession) (t : Tally)
    → count_of (lookup key (tally_rated ss t).breakdown)
      ≡ severity_total key ss + count_of (lookup key t.breakdown)
unfolding tally_rated severity_total
tally_rated-severity key [] t = omega arith
tally_rated-severity key (s ∷ ss) t =
    omega (arith, tally_rated-severity key ss _, count_of-findings key s.findings t.breakdown)

tally_rated-counted :
    (ss : List EmailSession) (t : Tally)
    → counted (tally_rated ss t).breakdown ≡ finding_total ss + counted t.breakdown
unfolding tally_rated finding_total
tally_rated-counted [] t = omega arith
tally_rated-counted (s ∷ ss) t =
    omega (arith, tally_rated-counted ss _, counted-findings s.findings t.breakdown)

-- Whatever was counted before, the totals that an analysis is stored with are those of its merged
-- sessions: the count of each severity is the number of the findings with it, the counts together are the
-- number of all findings, and the total of the risk scores is that of the rated sessions.
pub final_tally_lem :
    (merged : List EmailSession) (kept : Tally) (key : Text)
    → (count_of (lookup key (final_tally merged kept).breakdown) ≡ severity_total key merged)
      × (counted (final_tally merged kept).breakdown ≡ finding_total merged)
      × ((final_tally merged kept).total_risk ≡ (rate_sessions merged).1)
unfolding final_tally reset_tally counted count_of lookup
final_tally_lem merged kept key = (
  omega (arith, tally_rated-severity key merged (reset_tally kept)),
  omega (arith, tally_rated-counted merged (reset_tally kept)),
  omega (arith, tally_rated-total_risk merged (reset_tally kept)),
)
