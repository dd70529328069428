-- ===== src/Budget/Alerter.antt =====
-- services/budget/internal/adapter/alerter/kafka.go: the JSON encoder is a parameter.
use marginpilot.Base.{Text, List, true, ◌∷◌, ◌++◌, Proc, Result, lift, ◌>>=◌}
use marginpilot.Shared.Events.{AlertEvent, topic_alerts}
use marginpilot.External.Kafka.{Writer, WriterConfig, hash}

-- `Publish`
unfoldable pub publish :
    {W : Type 0} → (AlertEvent → Result Text) → Writer W → AlertEvent → Proc W (Unit {0})
publish marshal write e = do
  b ← lift (marshal e)
  write (record { key = e.tenant_id ++ b':' ∷ e.customer_id; value = b })

-- `NewKafka`, its writer
unfoldable pub alert_writer : List Text → WriterConfig
alert_writer brokers = record {
  addr = brokers;
  topic = topic_alerts;
  balancer = hash;
  creates_topic = true;
  batch_timeout = 0;
  write_timeout = 0;
}
