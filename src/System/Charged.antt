-- ===== src/System/Charged.antt =====
-- From a request at the gateway to the spend counter: gateway and metering.
use marginpilot.Base.{
  Text, List, [], ◌≡◌, ◌⊎◌, inl, inr, sym, ◌∙◌, Mem, Option, ℤ, pos, ◌+ℤ◌, Result, ok, ok-injective,
}
use marginpilot.Shared.Events.{UsageEvent}
use marginpilot.Shared.Spend
use marginpilot.External.Machine.{Machine}
use marginpilot.External.Redis.{Redis, IsRedis, counter}
use marginpilot.External.ClickHouse.{Connection}
use marginpilot.Gateway.Domain.{ChatRequest, ChatResponse, Caller}
use marginpilot.Gateway.Port.{Ports}
use marginpilot.Gateway.Service.{proxy, cache_provider}
use marginpilot.Gateway.Service.Traces.{
  Call, published, Run, rejected, hit, refused, failed, served, Charges, recording,
  recording_machine, proxy-Run,
}
use marginpilot.Metering.Pricer.{Pricer}
use marginpilot.Metering.Sink.{Row}
use marginpilot.Metering.Consumer.{handle}
use marginpilot.Metering.Consumer.Accounting.{IsApart, handle-ok}

-- The tokens that an event charges: none where the response came from the cache, else those that the
-- provider counted.
abbrev pub Counted : UsageEvent → ChatResponse → Type 0
Counted e resp =
    ((e.provider ≡ cache_provider) × (e.input_tokens ≡ pos 0) × (e.output_tokens ≡ pos 0))
    ⊎ ((e.input_tokens ≡ resp.usage.prompt_tokens)
        × (e.output_tokens ≡ resp.usage.completion_tokens))

-- What an event says of the request that it was published for.
pub record Bills (c : Caller) (resp : ChatResponse) (e : UsageEvent) : Type 0 where
  pub tenant : e.tenant_id ≡ c.tenant_id
  pub customer : e.customer_id ≡ c.customer_id
  pub model : e.model ≡ resp.model
  pub counted : Counted e resp

Charges-cached :
    (e : UsageEvent) (c : Caller) (resp : ChatResponse)
    → Charges e c resp cache_provider (pos 0) (pos 0)
    → Bills c resp e
Charges-cached e c resp x = record {
  tenant = x.tenant;
  customer = x.customer;
  model = x.model;
  counted = inl (x.by_provider, x.input, x.output);
}

Charges-served :
    (e : UsageEvent) (c : Caller) (resp : ChatResponse) (provider : Text)
    → Charges e c resp provider resp.usage.prompt_tokens resp.usage.completion_tokens
    → Bills c resp e
Charges-served e c resp provider x = record {
  tenant = x.tenant;
  customer = x.customer;
  model = x.model;
  counted = inr (x.input, x.output);
}

published-injective : {e e' : UsageEvent} → published e ≡ published e' → e ≡ e'
published-injective q = cc

-- An event that was published on the way to an answer is for this answer.
Run-Bills :
    (h : Text → Text) (provider : Text) (c : Caller) {r : Result ChatResponse} {log : List Call}
    (resp : ChatResponse) (e : UsageEvent)
    → Run h provider c r log
    → r ≡ ok resp
    → Mem (published e) log
    → Bills c resp e
Run-Bills h p c resp e (rejected x) answered m = cc
Run-Bills h p c resp e (hit req resp' e' x) answered m = elim m [
  | inl q ↦ cc
  | inr (inl q) ↦ rw (published-injective q, ← ok-injective answered) (Charges-cached e' c resp' x)
  | inr (inr none) ↦ absurd none
]
Run-Bills h p c resp e (refused req x) answered m = cc
Run-Bills h p c resp e (failed req x) answered m = cc
Run-Bills h p c resp e (served req resp' e' x) answered m = elim m [
  | inl q ↦ cc
  | inr (inl q) ↦ cc
  | inr (inr (inl q)) ↦ cc
  | inr (inr (inr (inl q))) ↦ cc
  | inr (inr (inr (inr (inl q)))) ↦
      rw (published-injective q, ← ok-injective answered) (Charges-served e' c resp' p x)
  | inr (inr (inr (inr (inr none)))) ↦ absurd none
]

module _ {W : Type 0} (sha256_hex : Text → Text) (m : Machine W) (s : Ports W)
    (unmarshal : Text → Result UsageEvent) (pricer : Pricer W) (ch : Connection W Row)
    (rdb : Redis W) {lookup : W → Text → Option Text} (laws : IsRedis rdb lookup)
    (apart : IsApart pricer ch lookup) where
  -- The spend of the caller in the month of an event.
  abbrev pub spent : Caller → UsageEvent → W → ℤ
  spent c e w = counter (lookup w (Spend.key c.tenant_id c.customer_id e.occurred_at))

  -- On a Redis that keeps its laws, which pricer and sink leave alone: take a request that the
  -- gateway answered, an event that it published on the way, and a message from which metering
  -- decodes this event. When metering has handled the message with success, in whatever world and
  -- however much later, the caller's spend in the month of the event has grown by the price of the
  -- response's model for the tokens that the provider counted, or for none if the response came from
  -- the cache.
  pub proxy-charged :
      (c : Caller) (req : ChatRequest) (resp : ChatResponse) (e : UsageEvent) (payload : Text)
      (w w' : W)
      → (let out = proxy sha256_hex (recording_machine m) (recording s) c req (w, []) in
          (out.0 ≡ ok resp) × Mem (published e) out.1.1)
      → unmarshal payload ≡ ok e
      → (handle unmarshal pricer ch rdb payload w').0 ≡ ok tt
      → (cost : ℤ) × ((pricer resp.model e.input_tokens e.output_tokens w').0 ≡ ok cost)
        × Counted e resp
        × (spent c e (handle unmarshal pricer ch rdb payload w').1 ≡ spent c e w' +ℤ cost)
  proxy-charged c req resp e payload w w' (answered, sent) decoded handled =
      let bills =
        Run-Bills sha256_hex s.provider.name c resp e (proxy-Run sha256_hex m s c req w) answered
          sent in
      let (e', cost, decoded', priced, added, _) =
        handle-ok unmarshal pricer ch rdb laws apart payload w' handled in
      let same : e' ≡ e = ok-injective (sym decoded' ∙ decoded) in
      (
        cost,
        rw (← bills.model) (rw same at priced),
        bills.counted,
        rw (← bills.tenant, ← bills.customer) (rw same at added),
      )
