-- ===== src/System/Tests.antt =====
-- Metering and budget over one Redis in memory: the theorem of the system at a concrete input.
mod Histories
mod Exhausted
mod Billed
mod Visited
mod Announced
mod Charged
mod Overshot
mod Paid
mod Simulated
use marginpilot.Base.{
  ◌*◌, Text, codes, [], ◌≡◌, refl, arith, none, Bool, false, ℤ, pos, ◌+ℤ◌, Result, ok, ok-injective,
  sym, sub64, wrap64,
}
use marginpilot.Base.Decimal.{pad, print_ℤ, parse_ℤ}
use marginpilot.Shared.Calendar.{Time, year, month}
use marginpilot.Shared.Events.{UsageEvent}
use marginpilot.Shared.Spend
use marginpilot.External.Machine.{Machine, frozen}
use marginpilot.External.ClickHouse.{Connection}
use marginpilot.External.Redis.{counter}
use marginpilot.External.Redis.Memory.{Memory, memory_redis, memory_redis-IsRedis}
use marginpilot.Metering.Pricer.{Pricer}
use marginpilot.Metering.Sink.{Row, insert}
use marginpilot.Metering.Consumer.{handle, charge}
use marginpilot.Metering.Consumer.Accounting.{IsApart, held}
use marginpilot.Budget.Enforcer.{Decision, allow, decide, effective_limit, reason_budget}
use marginpilot.Budget.Enforcer.Decisions.{IsDecision}
use marginpilot.Budget.Store.{allow_rate, limit, spend, limit_key, rate_key}
use marginpilot.Budget.Refinement.{held_limit}
use marginpilot.System.Ledger.{HasPrice}
use marginpilot.System.Enforcement.{metered_decision, after}

abbrev nothing : Memory
nothing key = none

abbrev noon : Time
noon = 63_950_000_000 * 1_000_000_000

abbrev machine : Machine Memory
machine = frozen noon (codes "id")

-- Each call costs the whole limit of ten micros.
abbrev dear : Pricer Memory
dear model i o w = (ok (pos 10), w)

abbrev null_sink : Connection Memory Row
null_sink = record {
  prepare_batch = λ w. (ok 0, w);
  append = λ b row w. (ok tt, w);
  send = λ b w. (ok tt, w);
}

apart : IsApart dear null_sink (λ (w : Memory). w)
apart = record {
  lookup-pricer = λ model i o k w. refl;
  lookup-prepare = λ k w. refl;
  lookup-append = λ b row k w. refl;
  lookup-send = λ b k w. refl;
}

abbrev event : UsageEvent
event = record {
  event_id = codes "e1";
  tenant_id = codes "acme";
  customer_id = codes "c1";
  feature = codes "chat";
  provider = codes "echo";
  model = codes "echo-1";
  input_tokens = pos 3;
  output_tokens = pos 2;
  latency_ms = pos 7;
  occurred_at = noon;
}

abbrev unmarshal : Text → Result UsageEvent
unmarshal b = ok event

abbrev metered : Memory
metered =
    after unmarshal dear null_sink memory_redis machine memory_redis-IsRedis apart (λ k w. refl)
      (pos 10) [] nothing

abbrev ten : UsageEvent → ℤ
ten e = pos 10

ten-HasPrice : HasPrice dear ten
ten-HasPrice e w c h = sym (ok-injective h)

abbrev refusal : Decision
refusal = record { allowed = false; remaining_micros = pos 0; reason = reason_budget }

metered_decision_example :
    (cost : ℤ) × (rate : Bool) × ((dear event.model event.input_tokens event.output_tokens
        nothing).0
      ≡ ok cost)
    × IsDecision refusal rate
        (held_limit memory_redis machine memory_redis-IsRedis
          (λ k w. refl)
          (pos 10)
          (codes "acme")
          (codes "c1")
          metered)
        (held unmarshal dear null_sink memory_redis memory_redis-IsRedis apart event nothing
          +ℤ cost)
unfolding counter Spend.key Spend.period pad year month parse_ℤ print_ℤ handle charge insert
    rate_key limit_key wrap64
metered_decision_example =
    metered_decision unmarshal dear null_sink memory_redis machine memory_redis-IsRedis apart
      (λ k w. refl) (pos 10) [] event nothing refusal refl refl refl refl
      (unfold effective_limit in unfold limit_key in ground arith)
      (unfold allow in
        unfold decide in
        unfold allow_rate in
        unfold limit in unfold spend in unfold sub64 in unfold effective_limit in refl)
