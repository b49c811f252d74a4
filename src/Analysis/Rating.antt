-- ===== src/Analysis/Rating.antt =====
-- What the risk score of a session, of backend/internal/analysis/service.go, says of its findings.
use secure_mail_scope_sih.Common.{
  ℕ, ◌≤◌, ◌<◌, ◌≡◌, refl, sym, ap, ◌∙◌, ◌⊎◌, inl, inr, List, [], ◌∷◌, arith, ltb, if◌then◌else◌,
  Bool-cases, All,
}
use mathlib.Core.Path.{subst}
use secure_mail_scope_sih.Models.{Severity, info, critical, Finding}
use secure_mail_scope_sih.Analysis.Scores.{severity_to_score, max_severity_from, max_severity}

-- A finding of the list has this severity.
abbrev pub Occurs : Severity → List Finding → Type 0
Occurs severity [] = ⊥
Occurs severity (f ∷ fs) = (f.severity ≡ severity) ⊎ Occurs severity fs

-- No finding scores higher.
abbrev pub IsBound : ℕ → List Finding → Type 0
IsBound score = All (λ f. severity_to_score f.severity ≤ score)

pub max_from-grows :
    (fs : List Finding) (n : ℕ) (severity : Severity) → n ≤ (max_severity_from n severity fs).0
unfolding max_severity_from
max_from-grows [] n severity = omega arith
max_from-grows (f ∷ fs) n severity = ground (
  arith,
  max_from-grows fs n severity,
  max_from-grows fs (severity_to_score f.severity) f.severity,
)

-- What the loop has seen after one finding.
max_step :
    (f : Finding) (fs : List Finding) (n : ℕ) (severity : Severity)
    → ((n < severity_to_score f.severity)
        × (max_severity_from n severity (f ∷ fs)
            ≡ max_severity_from (severity_to_score f.severity) f.severity fs))
      ⊎ ((severity_to_score f.severity ≤ n)
          × (max_severity_from n severity (f ∷ fs) ≡ max_severity_from n severity fs))
unfolding max_severity_from
max_step f fs n severity = elim (Bool-cases (ltb n (severity_to_score f.severity))) [
  | inl greater ↦ inl (
    ground arith,
    ap
        (λ b.
          max_severity_from (if b then severity_to_score f.severity else n)
            (if b then f.severity else severity) fs)
        greater,
  )
  | inr not_greater ↦ inr (
    ground arith,
    ap
        (λ b.
          max_severity_from (if b then severity_to_score f.severity else n)
            (if b then f.severity else severity) fs)
        not_greater,
  )
]

max_none : (n : ℕ) (severity : Severity) → max_severity_from n severity [] ≡ (n, severity)
unfolding max_severity_from
max_none n severity = refl

max_from-IsBound :
    (fs : List Finding) (n : ℕ) (severity : Severity)
    → IsBound (max_severity_from n severity fs).0 fs
max_from-IsBound [] n severity = tt
max_from-IsBound (f ∷ fs) n severity = elim (max_step f fs n severity) [
  | inl (_, e) ↦
      subst (λ r. IsBound r.0 (f ∷ fs)) (sym e)
        (
          max_from-grows fs (severity_to_score f.severity) f.severity,
          max_from-IsBound fs (severity_to_score f.severity) f.severity,
        )
  | inr (at_most, e) ↦
      subst (λ r. IsBound r.0 (f ∷ fs)) (sym e)
        (omega (arith, at_most, max_from-grows fs n severity), max_from-IsBound fs n severity)
]

-- A score and severity that one of the findings has.
abbrev IsAttained : List Finding → ℕ × Severity → Type 0
IsAttained fs r = Occurs r.1 fs × (severity_to_score r.1 ≡ r.0)

max_from-IsAttained :
    (fs : List Finding) (n : ℕ) (severity : Severity)
    → (max_severity_from n severity fs ≡ (n, severity))
      ⊎ IsAttained fs (max_severity_from n severity fs)
max_from-IsAttained [] n severity = inl (max_none n severity)
max_from-IsAttained (f ∷ fs) n severity = elim (max_step f fs n severity) [
  | inl (_, e) ↦ inr (
      subst (IsAttained (f ∷ fs)) (sym e)
        (elim (max_from-IsAttained fs (severity_to_score f.severity) f.severity) [
          | inl e' ↦ subst (IsAttained (f ∷ fs)) (sym e') (inl refl, refl)
          | inr (o, e') ↦ (inr o, e')
        ]))
  | inr (_, e) ↦ elim (max_from-IsAttained fs n severity) [
    | inl e' ↦ inl (e ∙ e')
    | inr (o, e') ↦ inr (subst (IsAttained (f ∷ fs)) (sym e) (inr o, e'))
  ]
]

score-positive : (s : Severity) → 0 < severity_to_score s
unfolding severity_to_score
score-positive critical = omega arith
score-positive _ = omega arith

-- The score that a session gets bounds the scores of all its findings, and with any findings it is that of
-- the severity beside it, which one of the findings has; without findings it is 0.
pub max_severity_lem :
    (fs : List Finding)
    → IsBound (max_severity fs).0 fs
      × (((fs ≡ []) × ((max_severity fs).0 ≡ 0))
          ⊎ (Occurs (max_severity fs).1 fs
              × (severity_to_score (max_severity fs).1 ≡ (max_severity fs).0)))
unfolding max_severity max_severity_from
max_severity_lem [] = (tt, inl (refl, refl))
max_severity_lem (f ∷ fs) = (
  max_from-IsBound (f ∷ fs) 0 info,
  elim (max_from-IsAttained (f ∷ fs) 0 info) [
    | inl e ↦ absurd (
        omega
          (arith, ap (λ r. r.0) e, (max_from-IsBound (f ∷ fs) 0 info).0, score-positive f.severity))
    | inr attained ↦ inr attained
  ],
)
