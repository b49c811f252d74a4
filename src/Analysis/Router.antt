-- ===== src/Analysis/Router.antt =====
-- `AIRouter` of backend/internal/analysis/ai_router.go: which provider is active. A health check is
-- a call over HTTP; its outcome, and the milliseconds that it took, are arguments.
use secure_mail_scope_sih.Common.{
  ℕ, ◌*◌, Bool, true, false, not, ◌&&◌, Option, none, some, [], if◌then◌else◌, Text, codes, text_eq,
  is_empty,
}
use secure_mail_scope_sih.Common.{positive_or}

-- `OllamaProvider`, with the timeout of its client in milliseconds
pub record OllamaProvider : Type 0 where
  pub name : Text
  pub url : Text
  pub model : Text
  pub timeout_ms : ℕ

-- `activeProviderName`: "" before the first check, then "remote", "local" or "none".
pub data ActiveProvider : Type 0 where
  unchecked remote local none_active : ActiveProvider

pub record AiRouter : Type 0 where
  pub remote_provider : Option OllamaProvider
  pub local_provider : Option OllamaProvider
  pub active_provider : ActiveProvider
  pub remote_healthy : Bool
  pub local_healthy : Bool
  pub remote_latency_ms : ℕ
  pub local_latency_ms : ℕ
  pub remote_enabled : Bool
  pub local_enabled : Bool

-- The environment that `NewAIRouter` reads.
pub record Settings : Type 0 where
  pub remote_enabled : Text
  pub local_enabled : Text
  pub remote_timeout_ms : Text
  pub local_timeout_ms : Text
  pub remote_url : Text
  pub local_url : Text
  pub remote_model : Text
  pub local_model : Text

-- `parseTimeout`, in milliseconds
unfoldable pub parse_timeout : Text → ℕ → ℕ
parse_timeout val default_secs =
    if is_empty val then default_secs * 1000 else positive_or (default_secs * 1000) val

-- `NewAIRouter`, up to the start of its health checks.
unfoldable pub new_ai_router : Settings → AiRouter
new_ai_router env =
    let remote_on = text_eq env.remote_enabled (codes "true") in
    let local_on = text_eq env.local_enabled (codes "true") in
    record {
      remote_provider =
          if remote_on
          then some (record {
            name = codes "remote";
            url = env.remote_url;
            model = env.remote_model;
            timeout_ms = parse_timeout env.remote_timeout_ms 60;
          })
          else none;
      local_provider =
          if local_on
          then some (record {
            name = codes "local";
            url = env.local_url;
            model = env.local_model;
            timeout_ms = parse_timeout env.local_timeout_ms 60;
          })
          else none;
      active_provider = unchecked;
      remote_healthy = false;
      local_healthy = false;
      remote_latency_ms = 0;
      local_latency_ms = 0;
      remote_enabled = remote_on;
      local_enabled = local_on;
    }

-- The outcome of a health check.
pub record Probe : Type 0 where
  pub healthy : Bool
  pub latency_ms : ℕ

exists : Option OllamaProvider → Bool
exists none = false
exists (some p) = true

-- `HealthCheck`: a provider with no URL is not asked.
asked : Option OllamaProvider → Probe → Bool
asked none probe = false
asked (some p) probe = not (is_empty p.url) && probe.healthy

-- `checkHealth`
unfoldable pub check_health : Probe → Probe → AiRouter → AiRouter
unfolding exists asked
check_health remote_probe local_probe r =
    let ask_remote = r.remote_enabled && exists r.remote_provider in
    let ask_local = r.local_enabled && exists r.local_provider in
    let remote_ok = if ask_remote then asked r.remote_provider remote_probe else r.remote_healthy in
    let local_ok = if ask_local then asked r.local_provider local_probe else r.local_healthy in
    record r {
      remote_healthy = remote_ok;
      local_healthy = local_ok;
      remote_latency_ms = if ask_remote then remote_probe.latency_ms else r.remote_latency_ms;
      local_latency_ms = if ask_local then local_probe.latency_ms else r.local_latency_ms;
      active_provider =
          if r.remote_enabled && remote_ok
          then remote
          else if r.local_enabled && local_ok
          then local
          else none_active;
    }

provider_of : ActiveProvider → AiRouter → Option OllamaProvider
provider_of remote r = r.remote_provider
provider_of local r = r.local_provider
provider_of _ r = none

-- `GetActiveProvider`
unfoldable pub get_active_provider : AiRouter → Option OllamaProvider
unfolding provider_of
get_active_provider r = provider_of r.active_provider r

-- A part of `AIStatus`
pub record ProviderStatus : Type 0 where
  pub enabled : Bool
  pub healthy : Bool
  pub model : Text
  pub latency_ms : ℕ

pub record AiStatus : Type 0 where
  pub active_provider : ActiveProvider
  pub remote_status : ProviderStatus
  pub local_status : ProviderStatus
  pub fallback_active : Bool

status_of : Option OllamaProvider → Bool → Bool → ℕ → ProviderStatus
status_of none enabled healthy latency_ms = record {
  enabled = false;
  healthy = false;
  model = [];
  latency_ms = 0;
}
status_of (some p) enabled healthy latency_ms = record {
  enabled = enabled;
  healthy = healthy;
  model = p.model;
  latency_ms = latency_ms;
}

is_local : ActiveProvider → Bool
is_local local = true
is_local _ = false

-- `GetStatus`
unfoldable pub get_status : AiRouter → AiStatus
unfolding status_of is_local
get_status r = record {
  active_provider = r.active_provider;
  remote_status = status_of r.remote_provider r.remote_enabled r.remote_healthy r.remote_latency_ms;
  local_status = status_of r.local_provider r.local_enabled r.local_healthy r.local_latency_ms;
  fallback_active = is_local r.active_provider && r.remote_enabled && not r.remote_healthy;
}
