-- ===== src/System/Tests/Exhausted.antt =====
-- A customer who has spent the limit of ten micros, over one Redis in memory.
use marginpilot.Base.{
  Text, codes, [], ◌∷◌, ◌≡◌, ◌⊎◌, refl, arith, none, pos, Error, ok, err, false, budget_exceeded,
  wrap64,
}
use marginpilot.Base.Decimal.{pad, print_ℤ, parse_ℤ}
use marginpilot.Shared.Calendar.{year, month}
use marginpilot.Shared.Spend
use marginpilot.External.Redis.{counter}
use marginpilot.External.Redis.Memory.{Memory, memory_redis, memory_redis-IsRedis}
use marginpilot.Metering.Sink.{insert}
use marginpilot.Metering.Consumer.{handle, charge}
use marginpilot.Budget.Enforcer.{effective_limit}
use marginpilot.Budget.Store.{limit_key}
use marginpilot.Gateway.Domain.{ChatRequest, Caller}
use marginpilot.Gateway.Port.{Ports}
use marginpilot.Gateway.Service.{proxy}
use marginpilot.Gateway.Adapters.{allow_all, noop_cache, noop_guardrail}
use marginpilot.Gateway.Echo.{echo}
use marginpilot.Budget.Server.{Server}
use marginpilot.Gateway.Http.{answer}
use marginpilot.System.Refusals.{service, wired, checked_by, proxy-exhausted}
use marginpilot.System.Ledger.{History}
use marginpilot.System.Ledger
use marginpilot.System.Overspent.{month_counter, proxy-overspent}
use marginpilot.System.Tests.{
  machine, metered, nothing, dear, null_sink, apart, event, unmarshal, ten, ten-HasPrice,
}

abbrev pub hash : Text → Text
hash s = s

abbrev pub ports : Ports Memory
ports = record {
  provider = echo;
  publish = λ e w. (ok tt, w);
  budget = allow_all;
  cache = noop_cache;
  guardrail = noop_guardrail;
}

abbrev pub caller : Caller
caller = record { tenant_id = codes "acme"; customer_id = codes "c1"; feature = codes "chat" }

abbrev pub hello : ChatRequest
hello = record {
  model = codes "gpt-4o";
  messages = record { role = codes "user"; content = codes "hi" } ∷ [];
  stream = false;
}

abbrev budget_service : Server Memory
budget_service = service memory_redis machine (pos 10) none

proxy-exhausted_example :
    (let proxied = (proxy hash machine (wired budget_service ports) caller hello metered).0 in
      (((proxied ≡ err budget_exceeded) × ((answer proxied).status ≡ 402))
        ⊎ ((e : Error) × ((checked_by budget_service caller metered).0 ≡ err e)
            × (proxied ≡ err e))))
unfolding counter Spend.key Spend.period pad year month parse_ℤ print_ℤ handle charge insert
    limit_key wrap64 effective_limit
proxy-exhausted_example =
    proxy-exhausted hash memory_redis machine memory_redis-IsRedis (λ k w. refl) (pos 10) none ports
      caller hello hello metered refl (λ cached h. cc) (ground arith) (ground arith)

-- One event of ten micros, from a Redis that held nothing.
one_event :
    History unmarshal dear null_sink memory_redis memory_redis-IsRedis apart ten
      (month_counter unmarshal dear null_sink memory_redis machine memory_redis-IsRedis apart ten
        (λ k w. refl)
        hash
        (pos 10)
        none
        ports
        caller
        hello
        metered)
      nothing
      (event ∷ [])
      metered
unfolding handle charge insert counter Spend.key
one_event = Ledger.metered [] event [] nothing metered refl refl (Ledger.done metered)

proxy-overspent_example :
    (let proxied = (proxy hash machine (wired budget_service ports) caller hello metered).0 in
      (((proxied ≡ err budget_exceeded) × ((answer proxied).status ≡ 402))
        ⊎ ((e : Error) × ((checked_by budget_service caller metered).0 ≡ err e)
            × (proxied ≡ err e))))
unfolding counter Spend.key Spend.period pad year month parse_ℤ print_ℤ handle charge insert
    limit_key wrap64 effective_limit
proxy-overspent_example =
    proxy-overspent unmarshal dear null_sink memory_redis machine memory_redis-IsRedis apart ten
      (λ k w. refl) hash (pos 10) none ports caller hello metered hello nothing (event ∷ [])
      ten-HasPrice one_event refl (λ cached h. cc) (ground arith) (ground arith)
