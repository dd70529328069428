-- ===== src/Metering/Consumer.antt =====
-- services/metering/internal/consumer/consumer.go. The JSON decoder is a parameter. `Run` loops until
-- it is cancelled: it is modelled for a number of rounds, and says whether it has returned.
pub mod Accounting
pub mod Loop
pub mod Traces
use marginpilot.Base.{
  ℕ, zero, suc, ◌*◌, Text, List, codes, Bool, true, false, if◌then◌else◌, Proc, Result, Error, ok,
  err, canceled, pure, lift, attempt, ◌>>=◌, ◌>>◌,
}
use marginpilot.Shared.Calendar.{nanos}
use marginpilot.Shared.Events.{UsageEvent, topic_usage}
use marginpilot.Shared.Spend
use marginpilot.External.Redis.{Redis}
use marginpilot.External.Kafka.{Message, Reader, ReaderConfig}
use marginpilot.External.ClickHouse.{Connection}
use marginpilot.Metering.Pricer.{Pricer}
use marginpilot.Metering.Sink.{Row, insert}

-- `New`, where it reads from
unfoldable pub usage_reader : List Text → ReaderConfig
usage_reader brokers = record {
  brokers = brokers;
  topic = topic_usage;
  group_id = codes "metering";
}

-- `spendTTL` in nanoseconds
abbrev pub spend_ttl : ℕ
spend_ttl = 45 * 24 * 3600 * nanos

abbrev is_canceled : Error → Bool
is_canceled canceled = true
is_canceled _ = false

module _ {W : Type 0} (unmarshal : Text → Result UsageEvent) (pricer : Pricer W)
    (ch : Connection W Row) (rdb : Redis W) where
  -- `handle` after the payload was decoded
  unfoldable pub charge : UsageEvent → Proc W (Unit {0})
  charge e = do
    cost ← pricer e.model e.input_tokens e.output_tokens
    insert ch e cost
    let key = Spend.key e.tenant_id e.customer_id e.occurred_at
    rdb.incr_by key cost
    attempt (rdb.expire key spend_ttl)
    pure tt

  -- `handle`
  unfoldable pub handle : Text → Proc W (Unit {0})
  unfolding charge
  handle payload = do e ← lift (unmarshal payload); charge e

  -- What a round of `Run` does with the message or the error that it read, before the next round.
  unfoldable pub round : (W → Bool × W) → Result Message → W → Bool × W
  round next (ok m) w = next (handle m.value w).1
  round next (err e) w = if is_canceled e then (true, w) else next w

  -- `Run`
  unfoldable pub run : Reader W → ℕ → W → Bool × W
  unfolding round
  run read zero w = (false, w)
  run read (suc rounds) w = let next = run read rounds in let (m, w') = read w in round next m w'
