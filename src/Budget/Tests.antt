-- ===== src/Budget/Tests.antt =====
-- The budget service over a Redis in memory: tests, and its theorems at concrete inputs.
use marginpilot.Base.{
  ◌*◌, ◌≤◌, codes, [], ◌∷◌, List, ◌≡◌, ◌⊎◌, refl, arith, none, true, ℤ, pos, ◌+ℤ◌, leb_ℤ, sub64,
  wrap64, quot, ok,
}
use marginpilot.Base.Decimal.{print_ℤ, parse_ℤ, pad}
use marginpilot.Shared.Calendar.{Time, unix, year, month}
use marginpilot.Shared.Spend
use marginpilot.External.Machine.{Machine, frozen}
use marginpilot.External.Redis.{counter}
use marginpilot.External.Redis.Memory.{Memory, memory_redis, memory_redis-IsRedis}
use marginpilot.Budget.Enforcer.{Enforcer, Decision, allow, decide, effective_limit}
use marginpilot.Budget.Store.{
  redis_store, allow_rate, limit, spend, set_limit, limit_key, rate_key, bucket, get_int, rate_max,
}
use marginpilot.Budget.Store.Limits.{limit-set_limit}
use marginpilot.Budget.Store.Window.{passed, passed-le-cap}
use marginpilot.Budget.Enforcer.Decisions.{IsDecision}
use marginpilot.Budget.Refinement.{allow_refines, held_hits, held_limit, held_spend}

-- A moment of August 2026.
abbrev noon : Time
noon = 63_950_000_000 * 1_000_000_000

abbrev machine : Machine Memory
machine = frozen noon (codes "id")

abbrev nothing : Memory
nothing key = none

abbrev five_dollars : ℤ
five_dollars = pos 5_000_000

abbrev service : Enforcer Memory
service = record { store = redis_store memory_redis machine; default_limit = five_dollars }

abbrev granted_all : Decision
granted_all = record { allowed = true; remaining_micros = five_dollars; reason = [] }

-- Every reading of the world on the way is computed.
allow_first : (allow service (codes "acme") (codes "c1") nothing).0 ≡ ok granted_all
unfolding allow effective_limit decide sub64 wrap64 allow_rate limit spend get_int bucket quot unix
    rate_key limit_key Spend.key Spend.period pad year month print_ℤ counter parse_ℤ
allow_first = refl

allow_refines_example :
    IsDecision granted_all
      (leb_ℤ
        (held_hits memory_redis machine memory_redis-IsRedis
            (λ k w. refl)
            five_dollars
            (codes "acme")
            (codes "c1")
            nothing
          +ℤ pos 1)
        rate_max)
      (held_limit memory_redis machine memory_redis-IsRedis
        (λ k w. refl)
        five_dollars
        (codes "acme")
        (codes "c1")
        nothing)
      (held_spend memory_redis machine memory_redis-IsRedis
        (λ k w. refl)
        five_dollars
        (codes "acme")
        (codes "c1")
        nothing)
allow_refines_example =
    allow_refines memory_redis machine memory_redis-IsRedis (λ k w. refl) five_dollars
      (codes "acme") (codes "c1") nothing granted_all
      (unfold effective_limit in unfold counter in (ground arith)) allow_first

abbrev limited : Memory
limited = (set_limit memory_redis machine (codes "acme") (codes "c1") (pos 700) nothing).1

limit-set_limit_example :
    ((codes "acme" ≡ codes "acme") × (codes "c1" ≡ codes "c1") × (pos 700 ≡ pos 700))
    ⊎ ((¬ ((codes "acme" ≡ codes "acme") × (codes "c1" ≡ codes "c1")))
        × (pos 700 ≡ counter (nothing (limit_key (codes "acme") (codes "c1")))))
unfolding parse_ℤ print_ℤ
limit-set_limit_example =
    limit-set_limit memory_redis memory_redis-IsRedis machine (codes "acme") (codes "c1")
      (codes "acme") (codes "c1") (pos 700) (pos 700) nothing (ground arith) (ground arith)
      (ground arith) (unfold set_limit in refl)
      (unfold set_limit in unfold limit in unfold get_int in unfold limit_key in refl)

abbrev window : ℤ
window = bucket noon

abbrev two_requests : List (Memory → Memory)
two_requests = (λ w. w) ∷ (λ w. w) ∷ []

passed-le-cap_example :
    passed memory_redis machine
      (λ w. w)
      memory_redis-IsRedis
      (codes "acme")
      (codes "c1")
      window
      two_requests
      nothing
    ≤ 120
passed-le-cap_example =
    passed-le-cap memory_redis machine (λ w. w) memory_redis-IsRedis (codes "acme") (codes "c1")
      window two_requests nothing (λ w. refl) (refl, refl, (refl, refl, tt)) refl
