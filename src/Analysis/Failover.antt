-- ===== src/Analysis/Failover.antt =====
-- Which AI provider of backend/internal/analysis/ai_router.go serves after a health check.
use secure_mail_scope_sih.Common.{
  ◌≡◌, Bool, not, ◌&&◌, none, List, [], ◌∷◌, arith, if◌then◌else◌, Text, codes, text_eq, is_empty,
}
use secure_mail_scope_sih.Analysis.Router.{
  AiRouter, Settings, new_ai_router, Probe, check_health, get_active_provider,
}

-- The router behind a sequence of health checks, each with the outcomes for the two providers.
abbrev pub checked : Settings → List (Probe × Probe) → AiRouter
checked env [] = new_ai_router env
checked env ((a, b) ∷ probes) = check_health a b (checked env probes)

-- What the configuration makes of a provider: none if it is not enabled.
abbrev pub usable : Text → Text → Probe → Bool
usable enabled url probe = text_eq enabled (codes "true") && not (is_empty url) && probe.healthy

-- The router keeps what it was configured with.
record Keeps (env : Settings) (r : AiRouter) : Type 0 where
  remote_kept : r.remote_provider ≡ (new_ai_router env).remote_provider
  local_kept : r.local_provider ≡ (new_ai_router env).local_provider
  remote_on : r.remote_enabled ≡ text_eq env.remote_enabled (codes "true")
  local_on : r.local_enabled ≡ text_eq env.local_enabled (codes "true")

checked-Keeps : (env : Settings) (probes : List (Probe × Probe)) → Keeps env (checked env probes)
unfolding new_ai_router check_health
checked-Keeps env [] = ground arith
checked-Keeps env ((a, b) ∷ probes) = ground (arith, checked-Keeps env probes)

-- After any health checks, the provider that serves is the remote one if it is enabled, has a URL and
-- answered the last check, else the local one under the same conditions, and else none: what the
-- checks before found plays no part.
pub get_active_provider-checked :
    (env : Settings) (probes : List (Probe × Probe)) (a b : Probe)
    → get_active_provider (checked env ((a, b) ∷ probes)) ≡ (
        if usable env.remote_enabled env.remote_url a
        then (new_ai_router env).remote_provider
        else if usable env.local_enabled env.local_url b
        then (new_ai_router env).local_provider
        else none)
unfolding get_active_provider check_health new_ai_router
get_active_provider-checked env probes a b = ground (arith, checked-Keeps env probes)
