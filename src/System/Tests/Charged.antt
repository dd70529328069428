-- ===== src/System/Tests/Charged.antt =====
-- A request that the echo provider answers, and metering that handles its event later.
use marginpilot.Base.{
  Text, codes, [], List, ◌≡◌, refl, inl, inr, fields, Mem, ℤ, pos, ◌+ℤ◌, Result, ok,
}
use marginpilot.Base.Decimal.{pad, print_ℤ, parse_ℤ}
use marginpilot.Shared.Calendar.{year, month}
use marginpilot.Shared.Events.{UsageEvent}
use marginpilot.Shared.Spend
use marginpilot.External.Hex
use marginpilot.External.Redis.{counter}
use marginpilot.External.Redis.Memory.{memory_redis, memory_redis-IsRedis}
use marginpilot.Metering.Sink.{insert}
use marginpilot.Metering.Consumer.{handle}
use marginpilot.Gateway.Echo.{complete, count_tokens}
use marginpilot.Gateway.Service.{proxy, emit, usage_event, milliseconds}
use marginpilot.Gateway.Service.Traces.{Call, published, recording, recording_machine}
use marginpilot.System.Charged.{Counted, spent, proxy-charged}
use marginpilot.System.Tests.{machine, metered, nothing, dear, null_sink, apart, noon}
use marginpilot.System.Tests.Exhausted.{hash, ports, caller, hello}

abbrev pub sent : UsageEvent
sent = record {
  event_id = codes "6964";
  tenant_id = codes "acme";
  customer_id = codes "c1";
  feature = codes "chat";
  provider = codes "echo";
  model = codes "gpt-4o";
  input_tokens = pos 1;
  output_tokens = pos 2;
  latency_ms = pos 0;
  occurred_at = noon;
}

abbrev pub decode : Text → Result UsageEvent
decode b = ok sent

abbrev calls : List Call
calls = (proxy hash (recording_machine machine) (recording ports) caller hello (nothing, [])).1.1

pub sent_in_calls : Mem (published sent) calls
unfolding proxy emit usage_event complete count_tokens fields milliseconds Hex.encode
sent_in_calls = inr (inr (inr (inr (inl refl))))

proxy-charged_example :
    (cost : ℤ) × ((dear (complete hello).model sent.input_tokens sent.output_tokens metered).0
      ≡ ok cost)
    × Counted sent (complete hello)
    × (spent hash machine ports decode dear null_sink memory_redis memory_redis-IsRedis apart caller
          sent
          (handle decode dear null_sink memory_redis (codes "{}") metered).1
        ≡ spent hash machine ports decode dear null_sink memory_redis memory_redis-IsRedis apart
            caller sent metered
          +ℤ cost)
unfolding proxy handle emit insert counter Spend.key Spend.period pad year month parse_ℤ print_ℤ
proxy-charged_example =
    proxy-charged hash machine ports decode dear null_sink memory_redis memory_redis-IsRedis apart
      caller hello (complete hello) sent (codes "{}") nothing metered (refl, sent_in_calls) refl
      refl
