-- ===== src/Analysis/Pipeline/Bounds.antt =====
-- The bounds of the aggregate that the pipeline of backend/internal/analysis/service.go writes.
use secure_mail_scope_sih.Common.{
  ℕ, zero, suc, ◌+◌, ◌*◌, ◌≤◌, ◌≡◌, refl, sym, ap, ◌↔◌, ◌≢◌, true, List, [], ◌∷◌, arith, Bool-cases,
  inl, inr, length, All, Text,
}
use mathlib.Core.Bool.{true≢false}
use mathlib.Core.List.{cons≢nil}
use secure_mail_scope_sih.Models.{
  Severity, info, critical, Finding, TlsInfo, EmailSession, Ratio, Analysis,
}
use secure_mail_scope_sih.Session.Reassembler.{ReassembledStream}
use secure_mail_scope_sih.Storage.Analyses.{at_least, severity_of_score}
use secure_mail_scope_sih.Analysis.Scores.{
  severity_to_score, max_severity_from, max_severity, rate_sessions,
}
use secure_mail_scope_sih.Analysis.Pipeline.World.{
  AiSession, AiRun, not_started, ended_badly, without_report, reported, Outside, World,
}
use secure_mail_scope_sih.Analysis.Pipeline.Build.{build_sessions, fs_count}
use secure_mail_scope_sih.Analysis.Pipeline.Merge.{merge_sessions}
use secure_mail_scope_sih.Analysis.Pipeline.Run.{per_stream, after_ai}

severity_to_score-le : (s : Severity) → severity_to_score s ≤ 9
unfolding severity_to_score
severity_to_score-le critical = omega arith
severity_to_score-le _ = omega arith

max_severity_from-le :
    (fs : List Finding) (n : ℕ) (s : Severity) → n ≤ 9 → (max_severity_from n s fs).0 ≤ 9
unfolding max_severity_from
max_severity_from-le [] n s h = h
max_severity_from-le (f ∷ fs) n s h =
    max_severity_from-le fs _ _ (ground (arith, severity_to_score-le f.severity))

pub max_severity-le : (fs : List Finding) → (max_severity fs).0 ≤ 9
unfolding max_severity
max_severity-le fs = max_severity_from-le fs 0 info (omega arith)

-- A rated session scores at most 9.
rate_sessions-le : (ss : List EmailSession) → (rate_sessions ss).1 ≤ 9 * length ss
unfolding rate_sessions
rate_sessions-le [] = omega arith
rate_sessions-le (s ∷ ss) = omega (arith, max_severity-le s.findings, rate_sessions-le ss)

fs_count-le : (ss : List EmailSession) → fs_count ss ≤ length ss
unfolding fs_count
fs_count-le [] = omega arith
fs_count-le (s ∷ ss) = elim (Bool-cases s.has_forward_secrecy) [
  | inl e ↦ rw e (omega (arith, fs_count-le ss))
  | inr e ↦ rw e (omega (arith, fs_count-le ss))
]

length-build_sessions :
    (outside : Outside) (analysis : Analysis) (id : Text) (m : List (Text × TlsInfo)) (idx : ℕ)
    (streams : List ReassembledStream)
    → length (build_sessions outside analysis id m idx streams) ≡ length streams
unfolding build_sessions
length-build_sessions outside analysis id m idx [] = refl
length-build_sessions outside analysis id m idx (s ∷ ss) =
    ap suc (length-build_sessions outside analysis id m (idx + 1) ss)

length-merge_sessions :
    (uuid : Text → ℕ → Text) (found : List AiSession) (ss : List EmailSession)
    → length (merge_sessions uuid found ss) ≡ length ss
unfolding merge_sessions
length-merge_sessions uuid found [] = refl
length-merge_sessions uuid found (s ∷ ss) = ap suc (length-merge_sessions uuid found ss)

-- The sessions behind the AI engine are as many as the streams.
length-after_ai :
    (outside : Outside) (id : Text) (run : AiRun) (ss : List EmailSession) (w : World)
    → length (after_ai outside id run ss w).0 ≡ length ss
unfolding after_ai
length-after_ai outside id (not_started text) ss w = refl
length-after_ai outside id (ended_badly lines) ss w = refl
length-after_ai outside id (without_report lines) ss w = refl
length-after_ai outside id (reported lines report) ss w =
    length-merge_sessions outside.uuid report.sessions ss

per_stream-le :
    (n bound streams : ℕ)
    → n ≤ bound * streams
    → let r = per_stream n streams in r.numerator ≤ bound * r.denominator
unfolding per_stream
per_stream-le n bound zero h = omega arith
per_stream-le n bound (suc streams) h = h

-- Whatever the AI engine reports, the aggregate of an analysis is in its bounds: the overall score is at
-- most 9, and the share of the sessions with forward secrecy at most 100 percent.
pub aggregate-bounds :
    (outside : Outside) (analysis : Analysis) (id : Text) (m : List (Text × TlsInfo))
    (streams : List ReassembledStream) (run : AiRun) (w : World)
    → let sessions = build_sessions outside analysis id m 0 streams in
      let merged = (after_ai outside id run sessions w).0 in
      let score = per_stream (rate_sessions merged).1 (length streams) in
      let pct = per_stream (fs_count sessions * 100) (length streams) in
      (score.numerator ≤ 9 * score.denominator) × (pct.numerator ≤ 100 * pct.denominator)
aggregate-bounds outside analysis id m streams run w =
    let sessions = build_sessions outside analysis id m 0 streams in
    let merged = (after_ai outside id run sessions w).0 in
    let built = length-build_sessions outside analysis id m 0 streams in
    let behind = length-after_ai outside id run sessions w in
    (
      per_stream-le _ 9 _ (omega (arith, rate_sessions-le merged, built, behind)),
      per_stream-le _ 100 _ (omega (arith, fs_count-le sessions, built)),
    )

total-full :
    (ss : List EmailSession)
    → 9 * length ss ≤ (rate_sessions ss).1
    → All (λ s. (max_severity s.findings).0 ≡ 9) ss
unfolding rate_sessions
total-full [] h = tt
total-full (s ∷ ss) h =
    let top = max_severity-le s.findings in
    let rest = rate_sessions-le ss in (omega arith, total-full ss (omega arith))

full-total :
    (ss : List EmailSession)
    → All (λ s. (max_severity s.findings).0 ≡ 9) ss
    → 9 * length ss ≤ (rate_sessions ss).1
unfolding rate_sessions
full-total [] h = omega arith
full-total (s ∷ ss) h = let top = h.0 in let rest = full-total ss h.1 in omega arith

severity_of_score-critical :
    (score : Ratio) → (severity_of_score score ≡ critical) ↔ (at_least 9 score ≡ true)
unfolding severity_of_score
severity_of_score-critical score = (λ h. ground (arith, h), λ h. rw h refl)

-- The overall severity of an analysis is CRITICAL exactly where it has sessions and every one of them is
-- rated with the score 9.
pub overall_severity-critical :
    (merged : List EmailSession)
    → (severity_of_score (per_stream (rate_sessions merged).1 (length merged)) ≡ critical)
      ↔ ((merged ≢ []) × All (λ s. (max_severity s.findings).0 ≡ 9) merged)
unfolding per_stream at_least rate_sessions
overall_severity-critical [] = (
  λ h. absurd (true≢false (sym ((severity_of_score-critical (per_stream 0 0)).0 h))),
  λ h. absurd (h.0 refl),
)
overall_severity-critical (s ∷ ss) =
    let (to, from) =
      severity_of_score-critical (per_stream (rate_sessions (s ∷ ss)).1 (length (s ∷ ss))) in
    (
      λ h. (λ e. cons≢nil e, total-full (s ∷ ss) (let d = to h in ground (arith, d))),
      λ h. from (let d = full-total (s ∷ ss) h.1 in ground (arith, d)),
    )
