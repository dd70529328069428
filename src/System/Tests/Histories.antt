-- ===== src/System/Tests/Histories.antt =====
-- Metering over one Redis in memory: histories of two events.
use marginpilot.Base.{Text, codes, [], ◌∷◌, ◌≡◌, refl, pos, Result, ok}
use marginpilot.Base.Decimal.{pad, print_ℤ, parse_ℤ}
use marginpilot.Shared.Calendar.{year, month}
use marginpilot.Shared.Events.{UsageEvent}
use marginpilot.Shared.Spend
use marginpilot.External.Redis.{counter}
use marginpilot.External.Redis.Memory.{Memory, memory_redis, memory_redis-IsRedis}
use marginpilot.Metering.Sink.{insert}
use marginpilot.Metering.Consumer.{handle, charge}
use marginpilot.System.Ledger.{key_of, History, done, metered, counter-History}
use marginpilot.System.Tests.{ten, ten-HasPrice, nothing, dear, null_sink, apart, event}

-- The payload names the customer.
abbrev of_customer : Text → UsageEvent
of_customer b = record event { customer_id = b }

abbrev unmarshal : Text → Result UsageEvent
unmarshal b = ok (of_customer b)

abbrev handled : Text → Memory → Memory
handled b w = (handle unmarshal dear null_sink memory_redis b w).1

abbrev counter_key : Text
counter_key = key_of (of_customer (codes "c1"))

first_one :
    History unmarshal dear null_sink memory_redis memory_redis-IsRedis apart ten counter_key nothing
      (of_customer (codes "c1") ∷ of_customer (codes "c2") ∷ [])
      (handled (codes "c2") (handled (codes "c1") nothing))
unfolding handle charge insert Spend.key counter
first_one =
    metered (codes "c1") (of_customer (codes "c1")) (of_customer (codes "c2") ∷ []) nothing _ refl
      refl
      (metered (codes "c2") (of_customer (codes "c2")) [] (handled (codes "c1") nothing) _ refl refl
        (done _))

counter-History_example :
    counter (handled (codes "c2") (handled (codes "c1") nothing) counter_key) ≡ pos 10
unfolding counter Spend.key Spend.period pad year month parse_ℤ print_ℤ handle charge insert
counter-History_example =
    counter-History unmarshal dear null_sink memory_redis memory_redis-IsRedis apart ten counter_key
      nothing (handled (codes "c2") (handled (codes "c1") nothing))
      (of_customer (codes "c1") ∷ of_customer (codes "c2") ∷ []) ten-HasPrice first_one
