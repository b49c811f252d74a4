-- ===== src/Analysis/Exposure.antt =====
-- How backend/internal/risk/engine.go and the scores of backend/internal/analysis/service.go together rate a
-- session whose credentials were in plaintext.
use secure_mail_scope_sih.Common.{
  ℕ, ◌≤◌, ◌≡◌, refl, inl, inr, true, List, [], ◌∷◌, ◌++◌, arith, any, All, Text,
}
use mathlib.Core.Path.{subst}
use secure_mail_scope_sih.Models.{
  Severity, critical, high, medium, low, info, other_severity, Finding, ProtocolEvent, EmailSession,
  start_tls_not_used,
}
use secure_mail_scope_sih.Risk.Policy.{Policy}
use secure_mail_scope_sih.Risk.Findings.{make_finding, plaintext_session}
use secure_mail_scope_sih.Risk.Engine.{
  start_tls_rules, is_not_used, is_auth_command, has_events, plaintext_rules, optional_tls,
  optional_certificate, assess,
}
use secure_mail_scope_sih.Analysis.Scores.{severity_to_score, max_severity, populate_flat_fields}
use secure_mail_scope_sih.Analysis.Rating.{max_severity_lem}

front : (P : Finding → Type 0) (xs ys : List Finding) → All P (xs ++ ys) → All P xs
front P [] ys h = tt
front P (x ∷ xs) ys h = (h.0, front P xs ys h.1)

back : (P : Finding → Type 0) (xs ys : List Finding) → All P (xs ++ ys) → All P ys
back P [] ys h = h
back P (x ∷ xs) ys h = back P xs ys h.1

score-most : (s : Severity) → severity_to_score s ≤ 9
unfolding severity_to_score
score-most critical = omega arith
score-most _ = omega arith

score-critical : (s : Severity) → 9 ≤ severity_to_score s → s ≡ critical
unfolding severity_to_score
score-critical critical h = refl
score-critical high h = absurd (omega arith)
score-critical medium h = absurd (omega arith)
score-critical low h = absurd (omega arith)
score-critical info h = absurd (omega arith)
score-critical (other_severity t) h = absurd (omega arith)

any-has_events : (es : List ProtocolEvent) → any is_auth_command es ≡ true → has_events es ≡ true
unfolding any has_events
any-has_events [] h = cc
any-has_events (e ∷ es) h = refl

plaintext_rules_of_auth :
    (s : EmailSession)
    → s.start_tls.state ≡ start_tls_not_used
    → any is_auth_command s.protocol_events ≡ true
    → plaintext_rules s ≡ plaintext_session s.id true ∷ []
unfolding plaintext_rules is_not_used
plaintext_rules_of_auth s e h = rw (e, any-has_events s.protocol_events h, h) refl

-- The greatest score is 9, and critical the severity beside it, once a finding scores 9.
top_rating :
    (fs : List Finding)
    → 9 ≤ (max_severity fs).0
    → ((max_severity fs).0 ≡ 9) × ((max_severity fs).1 ≡ critical)
top_rating fs h = elim (max_severity_lem fs).1 [
  | inl (_, zeroed) ↦ absurd (omega (arith, h, zeroed))
  | inr (_, e) ↦ (
    omega (arith, h, e, score-most (max_severity fs).1),
    score-critical (max_severity fs).1 (omega (arith, h, e)),
  )
]

plaintext_session-score : (sid : Text) → severity_to_score (plaintext_session sid true).severity ≡ 9
unfolding plaintext_session make_finding severity_to_score
plaintext_session-score sid = refl

-- Whatever the policy, a session whose STARTTLS state is "not used", and in which a recorded command begins
-- with AUTH, LOGIN or PASS, has after its assessment the risk score 9 and the severity CRITICAL.
pub populate_flat_fields-assess :
    (format_date format_time : ℕ → Text) (policy : Policy) (s : EmailSession)
    → s.start_tls.state ≡ start_tls_not_used
    → any is_auth_command s.protocol_events ≡ true
    → let rated =
        populate_flat_fields (record s { findings = assess format_date format_time policy s }) in
      (rated.risk_score ≡ 9) × (rated.severity ≡ critical)
unfolding populate_flat_fields assess
populate_flat_fields-assess format_date format_time policy s e h =
    let rest =
      optional_tls format_date format_time policy s.id s.tls
      ++ optional_certificate format_date format_time policy s.id s.certificate in
    let fs = assess format_date format_time policy s in
    let P : Finding → Type 0 = λ f. severity_to_score f.severity ≤ (max_severity fs).0 in
    let bound = back P (start_tls_rules s) (plaintext_rules s ++ rest) (max_severity_lem fs).0 in
    let held =
      subst (All P) (plaintext_rules_of_auth s e h) (front P (plaintext_rules s) rest bound) in
    top_rating fs (omega (arith, held.0, plaintext_session-score s.id))
