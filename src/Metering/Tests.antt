-- ===== src/Metering/Tests.antt =====
-- The metering consumer over a Redis in memory and over a script of reads: its theorems at concrete inputs.
use marginpilot.Base.{
  List, ◌∷◌, ◌*◌, Text, codes, [], ◌≡◌, refl, none, ℤ, pos, ◌+ℤ◌, Result, ok, failure, redis_nil,
  err, canceled,
}
use marginpilot.Base.Decimal.{pad, print_ℤ, parse_ℤ}
use marginpilot.Shared.Calendar.{year, month}
use marginpilot.Shared.Events.{UsageEvent}
use marginpilot.Shared.Spend
use marginpilot.External.Redis.{Redis, counter}
use marginpilot.External.Kafka.{Message}
use marginpilot.External.Redis.Memory.{Memory, memory_redis, memory_redis-IsRedis}
use marginpilot.External.ClickHouse.{Connection}
use marginpilot.Metering.Pricer.{Pricer}
use marginpilot.Metering.Sink.{Row, insert}
use marginpilot.Metering.Consumer.{handle}
use marginpilot.Metering.Consumer.Accounting.{IsApart, held, handle_twice}

abbrev nothing : Memory
nothing key = none

abbrev flat_price : {W : Type 0} → Pricer W
flat_price model i o w = (ok (pos 5), w)

abbrev null_sink : {W : Type 0} → Connection W Row
null_sink = record {
  prepare_batch = λ w. (ok 0, w);
  append = λ b row w. (ok tt, w);
  send = λ b w. (ok tt, w);
}

abbrev event : UsageEvent
event = record {
  event_id = codes "e1";
  tenant_id = codes "acme";
  customer_id = codes "c1";
  feature = codes "chat";
  provider = codes "echo";
  model = codes "echo-1";
  input_tokens = pos 3;
  output_tokens = pos 2;
  latency_ms = pos 7;
  occurred_at = 63_950_000_000 * 1_000_000_000;
}

abbrev unmarshal : Text → Result UsageEvent
unmarshal b = ok event

apart : IsApart flat_price null_sink (λ (w : Memory). w)
apart = record {
  lookup-pricer = λ model i o k w. refl;
  lookup-prepare = λ k w. refl;
  lookup-append = λ b row k w. refl;
  lookup-send = λ b k w. refl;
}

abbrev once : Memory
once = (handle unmarshal flat_price null_sink memory_redis [] nothing).1

handle_twice_example :
    (e : UsageEvent) × (cost cost' : ℤ) × (unmarshal [] ≡ ok e)
    × ((flat_price e.model e.input_tokens e.output_tokens nothing).0 ≡ ok cost)
    × ((flat_price e.model e.input_tokens e.output_tokens once).0 ≡ ok cost')
    × (held unmarshal flat_price null_sink memory_redis memory_redis-IsRedis apart e
          (handle unmarshal flat_price null_sink memory_redis [] once).1
        ≡ held unmarshal flat_price null_sink memory_redis memory_redis-IsRedis apart e nothing
          +ℤ cost
          +ℤ cost')
unfolding counter Spend.key Spend.period pad year month parse_ℤ print_ℤ
handle_twice_example =
    handle_twice unmarshal flat_price null_sink memory_redis memory_redis-IsRedis apart [] nothing
      (unfold handle in unfold insert in refl) (unfold handle in unfold insert in refl)

-- A queue of what reads give; at its end a read is cancelled.
abbrev Script : Type 0
Script = List (Result Message)

abbrev next_read : Script → Result Message × Script
next_read [] = (err canceled, [])
next_read (r ∷ rs) = (r, rs)

-- A Redis that takes every increment and keeps nothing.
abbrev deaf_redis : Redis Script
deaf_redis = record {
  get = λ k w. (err redis_nil, w);
  set = λ k v n w. (ok tt, w);
  incr = λ k w. (ok (pos 1), w);
  incr_by = λ k n w. (ok n, w);
  expire = λ k n w. (ok tt, w);
}

abbrev message : Message
message = record { key = codes "acme:c1"; value = codes "{}" }

abbrev script : Script
script = ok message ∷ (err (failure []) ∷ (ok message ∷ []))
