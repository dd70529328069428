-- ===== src/System/Tests/Paid.antt =====
-- A request that the echo provider answers, priced by a rating service with a fixed catalog.
use marginpilot.Base.{
  ◌+◌, ◌*◌, ◌/◌, Text, codes, ◌≡◌, refl, arith, Option, some, ok-injective, ap, ok, err, pos, ◌+ℤ◌,
  no_rows, quot, add64, wrap64, mul64,
}
use marginpilot.Base.Decimal.{pad, print_ℤ, parse_ℤ}
use marginpilot.Shared.Calendar.{year, month}
use marginpilot.Shared.Spend
use marginpilot.External.Redis.{counter}
use marginpilot.External.Redis.Memory.{Memory, memory_redis, memory_redis-IsRedis}
use marginpilot.External.Postgres.{Table, IsTable}
use marginpilot.Rating.Catalog.{Rates, cost, rates}
use marginpilot.Rating.Catalog
use marginpilot.Rating.Catalog.Pricing.{rates_of}
use marginpilot.Rating.Server.{price}
use marginpilot.Metering.Pricer.{grpc_cost}
use marginpilot.Metering.Sink.{insert}
use marginpilot.Metering.Consumer.{handle, charge}
use marginpilot.Metering.Consumer.Accounting.{IsApart}
use marginpilot.Gateway.Echo.{complete}
use marginpilot.Gateway.Service.{proxy, emit}
use marginpilot.System.Charged.{Counted}
use marginpilot.System.Priced.{rated, spend_of, after, proxy-priced}
use marginpilot.System.Tests.{machine, metered, nothing, null_sink}
use marginpilot.System.Tests.Exhausted.{hash, ports, caller, hello}
use marginpilot.System.Tests.Charged.{sent, decode, sent_in_calls}

-- A catalog of one price for every model, which takes no insert.
abbrev prices : Table Memory Rates
prices = record {
  query = λ k w. (ok (rates_of 2_500_000 10_000_000), w);
  insert = λ k v w. (err no_rows, w);
}

abbrev row : Memory → Text → Option Rates
row w k = some (rates_of 2_500_000 10_000_000)

prices-IsTable : IsTable prices row
prices-IsTable = record {
  query-ok = λ k v w h. ap some (ok-injective h);
  query-none = λ k w h. cc;
  row-query = λ k j w. refl;
  row-insert = λ k v j w h. cc;
}

apart : IsApart (rated prices) null_sink (λ (w : Memory). w)
unfolding grpc_cost price Catalog.price rates
apart = record {
  lookup-pricer = λ model i o k w. refl;
  lookup-prepare = λ k w. refl;
  lookup-append = λ b row k w. refl;
  lookup-send = λ b k w. refl;
}

proxy-priced_example :
    let spend =
      spend_of prices prices-IsTable hash machine ports decode null_sink memory_redis
        memory_redis-IsRedis apart caller sent in
    Counted sent (complete hello)
    × (spend (
          after prices prices-IsTable hash machine ports decode null_sink memory_redis
            memory_redis-IsRedis apart
            (codes "{}")
            metered)
        ≡ spend metered +ℤ pos ((1 * 2_500_000 + 2 * 10_000_000) / 1_000_000))
unfolding insert counter Spend.key Spend.period pad year month parse_ℤ print_ℤ handle charge
    grpc_cost price Catalog.price rates cost quot add64 wrap64 mul64 proxy emit
proxy-priced_example =
    proxy-priced prices prices-IsTable hash machine ports decode null_sink memory_redis
      memory_redis-IsRedis apart caller hello (complete hello) sent (codes "{}") nothing metered 1 2
      2_500_000 10_000_000 (refl, sent_in_calls) refl refl refl refl refl (omega arith)
