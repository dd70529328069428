-- ===== src/Startup/Wiring.antt =====
-- Which adapters the commands choose by the environment: services/gateway/cmd/gateway/main.go,
-- services/budget/cmd/budget/main.go and services/identity/cmd/identity/main.go. The clients of Kafka,
-- Redis and gRPC are parameters; a gRPC client that cannot be made ends the command.
pub mod Callers
use marginpilot.Base.{
  ℕ, Text, codes, [], ◌∷◌, List, split, is_empty, String, Option, none, some, if◌then◌else◌, ℤ, pos,
  Proc, Result, ok, err, made, attempt, pure, ◌>>=◌, ◌>>◌,
}
use marginpilot.Shared.Config.{Environ}
use marginpilot.Shared.Config
use marginpilot.Shared.Events.{UsageEvent, AlertEvent}
use marginpilot.External.Kafka.{Writer}
use marginpilot.External.Redis.{Redis}
use marginpilot.External.Postgres.{Table}
use marginpilot.Contract.Budget.{AllowRequest, AllowResponse}
use marginpilot.Contract.Identity.{ResolveRequest, ResolveResponse}
use marginpilot.Gateway.Domain.{ChatResponse}
use marginpilot.Gateway.Port.{UsagePublisher, BudgetChecker, Cache, CallerResolver}
use marginpilot.Gateway.Adapters.{
  allow_all, new_budget_grpc, noop_cache, redis_cache, kafka_publish, stdout_publish, new_identity,
}
use marginpilot.Budget.Server.{AlertPublisher}
use marginpilot.Budget.Alerter
use marginpilot.Identity.Store.{Caller}
use marginpilot.Identity.Store

abbrev pub setting : Environ → String → Text
setting env name = Config.get env (codes name) []

-- The default limit of the budget service.
unfoldable pub default_limit : Environ → ℤ
default_limit env = Config.get_int env (codes "BUDGET_DEFAULT_LIMIT_MICROS") (pos 5_000_000)

module _ {W : Type 0} (env : Environ) where
  -- The usage publisher of the gateway.
  unfoldable pub choose_publisher :
      (UsageEvent → Result Text) → (List Text → Writer W) → UsagePublisher W
  choose_publisher marshal writer =
      let brokers = setting env "KAFKA_BROKERS" in
      if is_empty brokers
      then stdout_publish marshal
      else kafka_publish marshal (writer (split b',' brokers))

  -- The budget checker of the gateway.
  unfoldable pub choose_budget :
      (Text → Result (AllowRequest → Proc W AllowResponse)) → Result (BudgetChecker W)
  unfolding new_budget_grpc
  choose_budget client =
      let target = setting env "BUDGET_GRPC_TARGET" in
      if is_empty target then ok allow_all else new_budget_grpc client target

  -- The response cache of the gateway.
  unfoldable pub choose_cache :
      (ChatResponse → Result Text) → (Text → Result ChatResponse) → (Text → Redis W) → Cache W
  choose_cache marshal unmarshal client =
      let addr = setting env "REDIS_ADDR" in
      if is_empty addr then noop_cache else redis_cache marshal unmarshal (client addr)

  -- The caller resolver of the gateway, if any.
  unfoldable pub choose_resolver :
      (Text → Result (ResolveRequest → Proc W ResolveResponse)) → Result (Option (CallerResolver W))
  unfolding new_identity
  choose_resolver client =
      let target = setting env "IDENTITY_GRPC_TARGET" in
      if is_empty target then ok none else made some (new_identity client target)

  -- The alert publisher of the budget service, if any.
  unfoldable pub choose_alerter :
      (AlertEvent → Result Text) → (List Text → Writer W) → Option (AlertPublisher W)
  choose_alerter marshal writer =
      let brokers = setting env "KAFKA_BROKERS" in
      if is_empty brokers
      then none
      else some (Alerter.publish marshal (writer (split b',' brokers)))

-- The demo keys of the identity service; a failure to seed one is only logged.
unfoldable pub seed_keys : {W : Type 0} → (Text → Text) → Table W Caller → Proc W (Unit {0})
seed_keys hash keys = do
  attempt (
      Store.seed hash keys (codes "sk-demo") (codes "demo-tenant") (codes "acme-inc")
        (codes "default"))
  attempt (
      Store.seed hash keys (codes "sk-north") (codes "northwind") (codes "north-sales")
        (codes "default"))
  pure tt
