-- ===== src/System/Tests/Overshot.antt =====
-- Two requests of ten micros each that are both granted on a limit of ten, before either is metered;
-- one of their events is delivered twice.
use marginpilot.Base.{
  List, ℕ, ◌+◌, ◌*◌, ◌<◌, codes, [], ◌∷◌, ◌≡◌, refl, arith, true, pos, sym, ok-injective, wrap64,
  sub64, quot,
}
use marginpilot.Base.Decimal.{pad, print_ℤ, parse_ℤ}
use marginpilot.Shared.Calendar.{year, month, unix}
use marginpilot.Shared.Events.{UsageEvent}
use marginpilot.Shared.Spend
use marginpilot.External.Redis.{counter}
use marginpilot.External.Redis.Memory.{Memory, memory_redis, memory_redis-IsRedis}
use marginpilot.Metering.Sink.{insert}
use marginpilot.Metering.Consumer.{handle, charge}
use marginpilot.Budget.Enforcer.{Decision, allow, decide, effective_limit}
use marginpilot.Budget.Store.{allow_rate, limit, spend, limit_key, rate_key, bucket, get_int}
use marginpilot.System.Ledger.{HasPrice}
use marginpilot.System.Overshoot.{Reached, start, granted, metered, redelivered, IsCurrent, checked}
use marginpilot.System.Overshoot.Bounds.{counter-Reached}
use marginpilot.System.Tests.{noon, machine, nothing, dear, null_sink, apart, event, unmarshal}

abbrev ten_each : UsageEvent → ℕ
ten_each e = 10

dear-HasPrice : HasPrice dear (λ e. pos (ten_each e))
dear-HasPrice e w c h = sym (ok-injective h)

abbrev check : Memory → Memory
check w =
    (checked unmarshal dear null_sink memory_redis machine memory_redis-IsRedis apart (λ k w'. refl)
      (pos 10) ten_each (codes "acme") (codes "c1") noon 10 10 2 w).1

abbrev meter : Memory → Memory
meter w = (handle unmarshal dear null_sink memory_redis [] w).1

abbrev yes_ten : Decision
yes_ten = record { allowed = true; remaining_micros = pos 10; reason = [] }

abbrev both : Memory
both = check (check nothing)

abbrev Flight : Memory → List UsageEvent → ℕ → Type 0
Flight =
    Reached unmarshal dear null_sink memory_redis machine memory_redis-IsRedis apart (λ k w. refl)
      (pos 10) ten_each (codes "acme") (codes "c1") noon 10 10 2 nothing

abbrev Current : Memory → Type 0
Current =
    IsCurrent unmarshal dear null_sink memory_redis machine memory_redis-IsRedis apart (λ k w. refl)
      (pos 10) ten_each (codes "acme") (codes "c1") noon 10 10 2

first-Current : Current nothing
unfolding limit_key effective_limit counter
first-Current = record { same_month = refl; same_limit = refl }

second-Current : Current (check nothing)
unfolding allow limit_key effective_limit counter allow_rate limit rate_key spend Spend.key
second-Current = record { same_month = refl; same_limit = refl }

granted_both : Flight both (event ∷ event ∷ []) 0
unfolding allow decide allow_rate counter limit rate_key limit_key spend Spend.key sub64 wrap64
    effective_limit print_ℤ bucket quot unix parse_ℤ
granted_both =
    granted (check nothing) (event ∷ []) 0 yes_ten event
      (granted nothing [] 0 yes_ten event start first-Current refl refl (omega arith) (omega arith))
      second-Current refl refl (omega arith) (omega arith)

metered_both : Flight (meter (meter (meter both))) [] 1
unfolding handle charge insert counter allow allow_rate limit rate_key limit_key spend Spend.key
    Spend.period print_ℤ bucket quot unix parse_ℤ pad year month get_int
metered_both =
    redelivered (meter (meter both)) [] 0 event []
      (metered (meter both) (event ∷ []) [] [] [] 0 event []
        (metered both (event ∷ event ∷ []) (event ∷ []) [] (event ∷ []) 0 event [] granted_both refl
          refl refl refl)
        refl refl refl refl)
      (omega arith) refl refl

counter-Reached_example :
    (spent : ℕ) × (counter (meter (meter (meter both)) (Spend.key (codes "acme") (codes "c1") noon))
      ≡ pos spent)
    × (spent + 0 < 10 + 2 * 10 + 1 * 10)
unfolding counter
counter-Reached_example =
    counter-Reached unmarshal dear null_sink memory_redis machine memory_redis-IsRedis apart
      (λ k w. refl) (pos 10) ten_each (codes "acme") (codes "c1") noon 10 10 2 nothing
      (meter (meter (meter both))) [] 0 1 dear-HasPrice (omega arith) refl (omega arith)
      metered_both
