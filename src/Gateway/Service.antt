-- ===== src/Gateway/Service.antt =====
-- The request path of services/gateway/internal/app/service.go. Logging is not modelled. The hash
-- function is a parameter, and so are the clock and the random source.
pub mod Traces
pub mod Ids
pub mod Cached
pub mod BestEffort
use marginpilot.Base.{
  ℕ, ◌-◌, ◌/◌, Text, codes, Option, none, some, Bool, if◌then◌else◌, ℤ, pos, Proc, Result, ok, err,
  budget_exceeded, pure, raise, lift, always, attempt, ◌>>=◌, ◌>>◌,
}
use marginpilot.Shared.Events.{UsageEvent}
use marginpilot.Shared.Calendar.{Time}
use marginpilot.External.Machine.{Machine}
use marginpilot.External.Hex
use marginpilot.Gateway.Domain.{ChatRequest, ChatResponse, Caller}
use marginpilot.Gateway.Port.{Ports}
use marginpilot.Gateway.Fingerprint.{cache_key}

-- `latency.Milliseconds()`; the clock is monotonic, so the later reading is not the smaller one.
unfoldable pub milliseconds : Time → Time → ℤ
milliseconds start stop = pos ((stop - start) / 1_000_000)

abbrev pub cache_provider : Text
cache_provider = codes "cache"

unfoldable pub usage_event : Caller → ChatResponse → Text → ℤ → ℤ → ℤ → Text → Time → UsageEvent
usage_event c resp provider in_tokens out_tokens latency id t = record {
  event_id = id;
  tenant_id = c.tenant_id;
  customer_id = c.customer_id;
  feature = c.feature;
  provider = provider;
  model = resp.model;
  input_tokens = in_tokens;
  output_tokens = out_tokens;
  latency_ms = latency;
  occurred_at = t;
}

-- `newID`
unfoldable pub new_id : {W : Type 0} → Machine W → Proc W Text
new_id m = do bytes ← always m.random; pure (Hex.encode bytes)

module _ {W : Type 0} (sha256_hex : Text → Text) (m : Machine W) (s : Ports W) where
  -- `emit`: a publish failure is logged, never fatal.
  unfoldable pub emit : Caller → ChatResponse → Text → ℤ → ℤ → ℤ → Proc W (Unit {0})
  unfolding new_id usage_event
  emit c resp provider in_tokens out_tokens latency = do
    id ← new_id m
    t ← always m.now
    attempt (s.publish (usage_event c resp provider in_tokens out_tokens latency id t))
    pure tt

  -- The part of `Proxy` after the budget was granted.
  unfoldable pub forward : Caller → ChatRequest → Text → Proc W ChatResponse
  forward c req key = do
    start ← always m.now
    resp ← s.provider.complete req
    stop ← always m.now
    attempt (s.cache.set key resp)
    emit c resp s.provider.name resp.usage.prompt_tokens resp.usage.completion_tokens
        (milliseconds start stop)
    pure resp

  -- The part of `Proxy` after a cache miss.
  unfoldable pub upstream : Caller → ChatRequest → Text → Proc W ChatResponse
  unfolding forward
  upstream c req key = do
    allowed ← s.budget c.tenant_id c.customer_id
    if allowed then forward c req key else raise budget_exceeded

  -- The part of `Proxy` after the cache was asked: its error counts as a miss.
  unfoldable pub after_lookup :
      Caller → ChatRequest → Text → Result (Option ChatResponse) → Proc W ChatResponse
  unfolding upstream
  after_lookup c req key (err _) = upstream c req key
  after_lookup c req key (ok none) = upstream c req key
  after_lookup c req key (ok (some resp)) = do
    emit c resp cache_provider (pos 0) (pos 0) (pos 0)
    pure resp

  -- `Proxy`
  unfoldable pub proxy : Caller → ChatRequest → Proc W ChatResponse
  unfolding after_lookup
  proxy c req = do
    req ← lift (s.guardrail req)
    let key = cache_key sha256_hex req
    found ← attempt (s.cache.get key)
    after_lookup c req key found
