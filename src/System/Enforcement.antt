-- ===== src/System/Enforcement.antt =====
-- A metered event counts against the customer's budget at once.
use marginpilot.Base.{
  Text, ◌≡◌, refl, sym, ap, ◌∙◌, Option, Bool, ℤ, ◌+ℤ◌, ◌-ℤ◌, IsInt64, Result, ok, ok-injective,
  subst,
}
use marginpilot.Shared.Calendar.{Time, year, month}
use marginpilot.Shared.Events.{UsageEvent}
use marginpilot.Shared.Spend
use marginpilot.Shared.Spend.Keys.{period_iff}
use marginpilot.External.Redis.{Redis, IsRedis, counter}
use marginpilot.External.Machine.{Machine}
use marginpilot.External.ClickHouse.{Connection}
use marginpilot.Metering.Pricer.{Pricer}
use marginpilot.Metering.Sink.{Row}
use marginpilot.Metering.Consumer.{handle}
use marginpilot.Metering.Consumer.Accounting.{IsApart, held, handle-ok}
use marginpilot.Budget.Enforcer.{Decision, allow}
use marginpilot.Budget.Enforcer.Decisions.{IsDecision}
use marginpilot.Budget.Refinement.{enforcer, held_limit, spend_time, allow_refines}

key_of_month :
    (a b : Text) (t u : Time)
    → year t ≡ year u
    → month t ≡ month u
    → Spend.key a b t ≡ Spend.key a b u
unfolding Spend.key
key_of_month a b t u y m = rw ((period_iff t u).1 (y, m)) refl

module _ {W : Type 0} (unmarshal : Text → Result UsageEvent) (pricer : Pricer W)
    (ch : Connection W Row) (r : Redis W) (m : Machine W) {lookup : W → Text → Option Text}
    (laws : IsRedis r lookup) (apart : IsApart pricer ch lookup)
    (quiet : (k : Text) (w : W) → lookup (m.now w).1 k ≡ lookup w k) (default_limit : ℤ) where
  abbrev pub after : Text → W → W
  after payload w = (handle unmarshal pricer ch r payload w).1

  -- On a Redis that keeps its laws, which pricer, sink and clock leave alone: a budget check that
  -- is answered right after an event was metered with success, in the month of the event and for
  -- its customer, decides on the spend with the price of that event in it, if the limit less the
  -- spend fits an `int64`. So it is refused for the budget as soon as the price brings the spend
  -- to the limit.
  pub metered_decision :
      (payload : Text) (e : UsageEvent) (w : W) (d : Decision)
      → (handle unmarshal pricer ch r payload w).0 ≡ ok tt
      → unmarshal payload ≡ ok e
      → let w' = after payload w in
        let limit = held_limit r m laws quiet default_limit e.tenant_id e.customer_id w' in
        let spent = held unmarshal pricer ch r laws apart e in
        let t = spend_time r m laws quiet default_limit e.tenant_id e.customer_id w' in
        year t ≡ year e.occurred_at
        → month t ≡ month e.occurred_at
        → IsInt64 (limit -ℤ spent w')
        → (allow
            (enforcer r m laws quiet default_limit e.tenant_id e.customer_id w')
            e.tenant_id
            e.customer_id
            w').0
          ≡ ok d
        → (cost : ℤ) × (rate : Bool) × ((pricer e.model e.input_tokens e.output_tokens w).0
            ≡ ok cost)
          × IsDecision d rate limit (spent w +ℤ cost)
  metered_decision payload e w d metered decoded same_year same_month fits checked =
      let w' = after payload w in
      let t = spend_time r m laws quiet default_limit e.tenant_id e.customer_id w' in
      let (e', cost, decoded', priced, added, _) =
        handle-ok unmarshal pricer ch r laws apart payload w metered in
      let same : e' ≡ e = ok-injective (sym decoded' ∙ decoded) in
      let limit = held_limit r m laws quiet default_limit e.tenant_id e.customer_id w' in
      let one_key = key_of_month e.tenant_id e.customer_id t e.occurred_at same_year same_month in
      let read = ap (λ (k : Text). counter (lookup w' k)) one_key in
      let decision =
        allow_refines r m laws quiet default_limit e.tenant_id e.customer_id w' d (rw read fits)
          checked in
      (cost, _, rw same at priced, subst (IsDecision d _ limit) (read ∙ rw same at added) decision)
