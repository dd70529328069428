-- ===== src/System/Overspent.antt =====
-- Metering, budget and gateway together: what was metered decides what is refused.
use marginpilot.Base.{
  Text, ◌≡◌, ◌≢◌, ◌⊎◌, sym, subst, List, Option, some, ℤ, ◌+ℤ◌, ◌-ℤ◌, ◌≤ℤ◌, IsInt64, Result, Error,
  ok, err, budget_exceeded,
}
use marginpilot.Shared.Events.{UsageEvent}
use marginpilot.Shared.Spend
use marginpilot.External.Redis.{Redis, IsRedis, counter}
use marginpilot.External.Machine.{Machine}
use marginpilot.External.ClickHouse.{Connection}
use marginpilot.Metering.Pricer.{Pricer}
use marginpilot.Metering.Sink.{Row}
use marginpilot.Metering.Consumer.Accounting.{IsApart}
use marginpilot.Budget.Server.{AlertPublisher}
use marginpilot.Budget.Refinement.{held_limit, spend_time}
use marginpilot.Gateway.Domain.{ChatRequest, ChatResponse, Caller}
use marginpilot.Gateway.Port.{Ports}
use marginpilot.Gateway.Fingerprint.{cache_key}
use marginpilot.Gateway.Service.{proxy}
use marginpilot.Gateway.Http.{answer}
use marginpilot.System.Ledger.{History, HasPrice, charged, counter-History}
use marginpilot.System.Refusals.{service, wired, checked_by, proxy-exhausted}

module _ {W : Type 0} (unmarshal : Text → Result UsageEvent) (pricer : Pricer W)
    (ch : Connection W Row) (r : Redis W) (m : Machine W) {lookup : W → Text → Option Text}
    (laws : IsRedis r lookup) (apart : IsApart pricer ch lookup) (price : UsageEvent → ℤ)
    (quiet : (k : Text) (w : W) → lookup (m.now w).1 k ≡ lookup w k) (sha256_hex : Text → Text)
    (default_limit : ℤ) (alerter : Option (AlertPublisher W)) (ports : Ports W) (c : Caller)
    (checked : ChatRequest) (w : W) where
  abbrev lookup_done : Result (Option ChatResponse) × W
  lookup_done = ports.cache.get (cache_key sha256_hex checked) w

  -- The customer's counter of the month in which the budget is asked.
  abbrev pub month_counter : Text
  month_counter =
      Spend.key c.tenant_id c.customer_id
        (spend_time r m laws quiet default_limit c.tenant_id c.customer_id lookup_done.1)

  abbrev pub limit_in_force : ℤ
  limit_in_force = held_limit r m laws quiet default_limit c.tenant_id c.customer_id lookup_done.1

  -- What the counter held before a history, and what the history added.
  abbrev pub metered_spend : W → List UsageEvent → ℤ
  metered_spend before es = counter (lookup before month_counter) +ℤ charged price month_counter es

  -- Metering, the budget service and the gateway over one Redis that keeps its laws, which pricer,
  -- sink and clock leave alone, with a price for each event: when a request passed the guardrail and
  -- was not cached, and the prices of the customer's events that were metered, added to what the
  -- counter of the month held before them, have reached the limit in force (the difference fitting
  -- an `int64`), the answer is 402, or the budget check has failed and its error is what the request
  -- fails with.
  pub proxy-overspent :
      (req : ChatRequest) (before : W) (es : List UsageEvent)
      → HasPrice pricer price
      → History unmarshal pricer ch r laws apart price month_counter before es lookup_done.1
      → ports.guardrail req ≡ ok checked
      → ((cached : ChatResponse) → lookup_done.0 ≢ ok (some cached))
      → IsInt64 (limit_in_force -ℤ metered_spend before es)
      → limit_in_force ≤ℤ metered_spend before es
      → (let proxied =
            (proxy sha256_hex m (wired (service r m default_limit alerter) ports) c req w).0 in
          (((proxied ≡ err budget_exceeded) × ((answer proxied).status ≡ 402))
            ⊎ ((e : Error) × ((checked_by (service r m default_limit alerter) c lookup_done.1).0
                  ≡ err e)
                × (proxied ≡ err e))))
  proxy-overspent req before es priced history passed miss fits over =
      let spent =
        counter-History unmarshal pricer ch r laws apart price month_counter before lookup_done.1 es
          priced history in
      proxy-exhausted sha256_hex r m laws quiet default_limit alerter ports c req checked w passed
        miss (subst (λ (z : ℤ). IsInt64 (limit_in_force -ℤ z)) (sym spent) fits)
        (subst (λ (z : ℤ). limit_in_force ≤ℤ z) (sym spent) over)
