-- ===== src/Startup/Consumers.antt =====
-- `main` of services/metering/cmd/metering and services/notifier/cmd/notifier. The clients of Kafka,
-- ClickHouse, Redis and gRPC are parameters, and so is starting a goroutine. Ending with an error is
-- `os.Exit(1)`.
use marginpilot.Base.{
  ℕ, Text, codes, List, split, is_empty, Bool, not, if◌then◌else◌, ℤ, Proc, Result, ok, pure, lift,
  attempt, ◌>>=◌, ◌>>◌,
}
use marginpilot.Shared.Config.{Environ}
use marginpilot.Shared.Config
use marginpilot.Shared.Events.{UsageEvent, AlertEvent}
use marginpilot.Shared.Server.{Host}
use marginpilot.Shared.Server as Httpx
use marginpilot.External.Kafka.{Reader}
use marginpilot.External.Redis.{Redis}
use marginpilot.External.ClickHouse.{Connection, Options}
use marginpilot.Contract.Rating.{PriceRequest, PriceResponse}
use marginpilot.Metering.Pricer.{Pricer, new_grpc_pricer}
use marginpilot.Metering.Pricing.{builtin_pricer}
use marginpilot.Metering.Sink.{Row}
use marginpilot.Metering.Sink
use marginpilot.Metering.Consumer.{run}
use marginpilot.External.Http.{HttpClient}
use marginpilot.Notifier.Consumer.{run_notifier}
use marginpilot.Startup.Retry.{await_schema}
use marginpilot.Startup.Wiring.{setting}
use marginpilot.Startup.Services.{change}

-- A loop that counts its rounds, as a goroutine runs it.
abbrev pub Loop : Type 0 → Type 0
Loop W = ℕ → W → Bool × W

-- What `startConsumer` makes its parts of.
pub record Clients (W C : Type 0) : Type 0 where
  pub open_clickhouse : Options → Result C
  pub execute : C → Text → Proc W (Unit {0})
  pub connection : C → Connection W Row
  pub redis : Text → Redis W
  pub reader : List Text → Reader W
  pub rating : Text → Result (PriceRequest → Proc W PriceResponse)

module _ {W : Type 0} (env : Environ) (host : Host W (Unit {0})) (start : Loop W → W → W) where
  -- `pricerFrom`
  unfoldable pub pricer_from :
      (ℤ → ℤ) → (Text → Result (PriceRequest → Proc W PriceResponse)) → Result (Pricer W)
  pricer_from out_of_range client =
      let target = setting env "RATING_GRPC_TARGET" in
      if is_empty target then ok (builtin_pricer out_of_range) else new_grpc_pricer client target

  module _ {C : Type 0} (sleep : ℕ → W → W) (unmarshal : Text → Result UsageEvent)
      (out_of_range : ℤ → ℤ) (clients : Clients W C) where
    -- `startConsumer`
    unfoldable pub start_consumer : Text → Proc W (Unit {0})
    start_consumer brokers = do
      ch ← lift (
          Sink.new_clickhouse clients.open_clickhouse
            (Config.get env (codes "CLICKHOUSE_ADDR") (codes "localhost:9000")))
      await_schema sleep (Sink.ensure_schema (clients.execute ch))
      pricer ← lift (pricer_from out_of_range clients.rating)
      let rdb = clients.redis (Config.get env (codes "REDIS_ADDR") (codes "localhost:6379"))
      change (
          start (
            run unmarshal pricer (clients.connection ch) rdb (clients.reader (split b',' brokers))))

    unfoldable pub metering_main : Proc W (Unit {0})
    metering_main = do
      let brokers = setting env "KAFKA_BROKERS"
      if is_empty brokers then pure tt else start_consumer brokers
      attempt (Httpx.run host tt (Config.get env (codes "METERING_ADDR") (codes ":8081")))
      pure tt

  -- The notifier; its reader is closed when the command ends.
  unfoldable pub notifier_main :
      (Text → Result AlertEvent)
      → HttpClient W
      → (List Text → Reader W)
      → (W → W)
      → Proc W (Unit {0})
  notifier_main unmarshal client reader close = do
    let brokers = setting env "KAFKA_BROKERS"
    let consumed = not (is_empty brokers)
    let webhook = setting env "NOTIFIER_WEBHOOK_URL"
    if consumed
        then change (start (run_notifier unmarshal client webhook (reader (split b',' brokers))))
        else pure tt
    attempt (Httpx.run host tt (Config.get env (codes "NOTIFIER_ADDR") (codes ":8086")))
    if consumed then change close else pure tt
