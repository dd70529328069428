-- ===== src/Gateway/Adapters.antt =====
-- The outbound adapters of services/gateway/internal/adapter/outbound, but the policy guardrail and
-- the echo provider. The JSON codec and the generated gRPC clients are parameters.
pub mod RedisCache
use marginpilot.Base.{
  ℕ, ◌*◌, Text, List, codes, [], ◌∷◌, ◌++◌, Option, none, some, Bool, true, false, if◌then◌else◌,
  Proc, Result, Error, ok, err, redis_nil, key_not_found, pure, raise, lift, attempt, made, ◌>>=◌,
  ◌>>◌,
}
use marginpilot.Shared.Events.{UsageEvent, topic_usage}
use marginpilot.Shared.Calendar.{nanos}
use marginpilot.External.Redis.{Redis}
use marginpilot.External.Kafka.{Message, Writer, WriterConfig, hash}
use marginpilot.Contract.Budget.{AllowRequest, AllowResponse}
use marginpilot.Contract.Identity.{ResolveRequest, ResolveResponse}
use marginpilot.Gateway.Domain.{ChatRequest, ChatResponse, Caller}
use marginpilot.Gateway.Port.{Cache, Guardrail, BudgetChecker, UsagePublisher, CallerResolver}

-- budget/allowall.go
abbrev pub allow_all : {W : Type 0} → BudgetChecker W
allow_all tenant customer = pure true

-- budget/grpc.go: `Allow`
unfoldable pub budget_grpc : {W : Type 0} → (AllowRequest → Proc W AllowResponse) → BudgetChecker W
budget_grpc call tenant customer = do
  resp ← call (record { tenant_id = tenant; customer_id = customer })
  pure resp.allowed

-- budget/grpc.go: `NewGRPC`, over the generated client of a connection
unfoldable pub new_budget_grpc :
    {W : Type 0}
    → (Text → Result (AllowRequest → Proc W AllowResponse))
    → Text
    → Result (BudgetChecker W)
new_budget_grpc client target = made budget_grpc (client target)

-- cache/noop.go
abbrev pub noop_cache : {W : Type 0} → Cache W
noop_cache = record { get = λ key. pure none; set = λ key resp. pure tt }

-- guardrail/noop.go
abbrev pub noop_guardrail : Guardrail
noop_guardrail req = ok req

-- publisher/stdout.go: `Publish`; the log is not modelled
unfoldable pub stdout_publish : {W : Type 0} → (UsageEvent → Result Text) → UsagePublisher W
stdout_publish marshal e = do lift (marshal e); pure tt

-- publisher/kafka.go: `NewKafka`, its writer
unfoldable pub usage_writer : List Text → WriterConfig
usage_writer brokers = record {
  addr = brokers;
  topic = topic_usage;
  balancer = hash;
  creates_topic = true;
  batch_timeout = 50 * 1_000_000;
  write_timeout = 5 * nanos;
}

-- publisher/kafka.go: `Publish`
unfoldable pub kafka_publish :
    {W : Type 0} → (UsageEvent → Result Text) → Writer W → UsagePublisher W
kafka_publish marshal write e = do
  b ← lift (marshal e)
  write (record { key = e.tenant_id ++ b':' ∷ e.customer_id; value = b })

-- resolver/identity.go: `Resolve`
unfoldable pub identity_resolve :
    {W : Type 0} → (ResolveRequest → Proc W ResolveResponse) → CallerResolver W
identity_resolve call api_key = do
  resp ← call (record { api_key = api_key })
  if resp.found
      then pure (record {
        tenant_id = resp.tenant_id;
        customer_id = resp.customer_id;
        feature = resp.feature;
      })
      else raise key_not_found

-- resolver/identity.go: `NewIdentity`, over the generated client of a connection
unfoldable pub new_identity :
    {W : Type 0}
    → (Text → Result (ResolveRequest → Proc W ResolveResponse))
    → Text
    → Result (CallerResolver W)
new_identity client target = made identity_resolve (client target)

-- cache/redis.go: `ttl` in nanoseconds, and `prefix`
abbrev pub ttl : ℕ
ttl = 3600 * nanos

unfoldable pub prefixed : Text → Text
prefixed key = codes "cache:resp:" ++ key

is_redis_nil : Error → Bool
is_redis_nil redis_nil = true
is_redis_nil _ = false

present : Result ChatResponse → Result (Option ChatResponse)
present (ok resp) = ok (some resp)
present (err e) = err e

decoded : (Text → Result ChatResponse) → Result Text → Result (Option ChatResponse)
unfolding is_redis_nil present
decoded unmarshal (ok b) = present (unmarshal b)
decoded unmarshal (err e) = if is_redis_nil e then ok none else err e

module _ {W : Type 0} (marshal : ChatResponse → Result Text)
    (unmarshal : Text → Result ChatResponse) (r : Redis W) where
  -- `Get`
  unfoldable pub redis_get : Text → Proc W (Option ChatResponse)
  unfolding decoded
  redis_get key = do b ← attempt (r.get (prefixed key)); lift (decoded unmarshal b)

  -- `Set`
  unfoldable pub redis_set : Text → ChatResponse → Proc W (Unit {0})
  redis_set key resp = do b ← lift (marshal resp); r.set (prefixed key) b ttl

  abbrev pub redis_cache : Cache W
  redis_cache = record { get = redis_get; set = redis_set }
