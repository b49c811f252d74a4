-- ===== src/Analysis/Pipeline/Merge.antt =====
-- Step 5.5 of `ExecutePipeline` of backend/internal/analysis/service.go: the AI engine's report merged
-- into the sessions.
use secure_mail_scope_sih.Common.{
  ℕ, ◌+◌, Bool, ◌||◌, Option, none, some, List, [], ◌∷◌, ◌++◌, if◌then◌else◌, take, Text, codes,
  text_eq, is_empty, has_suffix, text_key,
}
use secure_mail_scope_sih.Models.{Finding, EmailSession}
use secure_mail_scope_sih.Analysis.Pipeline.World.{AiSession}

-- `goID == sess.ID || strings.HasSuffix(sess.ID, aiSess.SessionID)`
unfoldable pub matches : EmailSession → AiSession → Bool
matches s a = text_eq a.go_session_id s.id || has_suffix s.id a.session_id

-- The loop over the AI engine's sessions, which ends at the first that matches
unfoldable pub first_match : EmailSession → List AiSession → Option AiSession
unfolding matches
first_match s [] = none
first_match s (a ∷ others) = let rest = first_match s others in if matches s a then some a else rest

-- "Add AI findings", from the place `i`: they belong to the session, and have an identifier.
unfoldable pub adopted : (Text → ℕ → Text) → Text → ℕ → List Finding → List Finding
adopted uuid sid i [] = []
adopted uuid sid i (f ∷ fs) =
    record f {
      session_id = sid;
      id = if is_empty f.id then codes "AI-" ++ take 8 (uuid sid i) else f.id;
    }
    ∷ adopted uuid sid (i + 1) fs

unfoldable pub take_over : (Text → ℕ → Text) → AiSession → EmailSession → EmailSession
unfolding adopted
take_over uuid a s = record s {
  is_anomalous = a.is_anomalous;
  anomaly_score = a.anomaly_score;
  ai_assessment = a.ai_assessment;
  ai_assessment_structured = a.ai_assessment_structured;
  remediations = a.remediations;
  findings = s.findings ++ adopted uuid s.id 0 a.findings;
}

unfoldable pub take_over_from : (Text → ℕ → Text) → Option AiSession → EmailSession → EmailSession
unfolding take_over
take_over_from uuid none s = s
take_over_from uuid (some a) s = take_over uuid a s

-- "Merge AI results into sessions by Go session ID"
unfoldable pub merge_session : (Text → ℕ → Text) → List AiSession → EmailSession → EmailSession
unfolding first_match take_over_from
merge_session uuid found s = take_over_from uuid (first_match s found) s

unfoldable pub merge_sessions :
    (Text → ℕ → Text) → List AiSession → List EmailSession → List EmailSession
unfolding merge_session
merge_sessions uuid found [] = []
merge_sessions uuid found (s ∷ ss) = merge_session uuid found s ∷ merge_sessions uuid found ss
