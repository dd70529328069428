-- ===== src/Startup/Gateway.antt =====
-- `main` of services/gateway/cmd/gateway. The clients of Kafka, Redis and gRPC are parameters, and so
-- are the JSON codec and starting a goroutine; the deferred closes of the clients are not modelled.
pub mod Standalone
use marginpilot.Base.{
  ℕ, Text, codes, [], ◌∷◌, List, split, text_eq, Option, none, some, Bool, ◌||◌, if◌then◌else◌,
  Proc, Result, ok, err, pure, lift, attempt, ◌>>=◌, ◌>>◌,
}
use marginpilot.Shared.Config.{Environ}
use marginpilot.Shared.Config
use marginpilot.Shared.Events.{UsageEvent}
use marginpilot.Shared.Server.{Host}
use marginpilot.Shared.Server as Httpx
use marginpilot.External.Machine.{Machine}
use marginpilot.External.Kafka.{Writer}
use marginpilot.External.Redis.{Redis}
use marginpilot.Contract.Budget.{AllowRequest, AllowResponse}
use marginpilot.Contract.Identity.{ResolveRequest, ResolveResponse}
use marginpilot.Gateway.Domain.{ChatRequest, ChatResponse}
use marginpilot.Gateway.Port.{Ports, Guardrail, BudgetChecker, CallerResolver}
use marginpilot.Gateway.Adapters.{noop_guardrail}
use marginpilot.Gateway.Guardrail.{check, new_policy}
use marginpilot.Gateway.Echo.{echo}
use marginpilot.Gateway.Http.{Request, Response, chat_completions}
use marginpilot.Gateway.Routes.{Endpoints, register}
use marginpilot.Startup.Retry.{warm_up}
use marginpilot.Startup.Wiring.{
  setting, choose_publisher, choose_budget, choose_cache, choose_resolver,
}
use marginpilot.Startup.Services.{change}

-- The guardrail: the policy in the modes `redact` and `block`, else none.
unfoldable pub choose_guardrail : (Text → Text) → Environ → Guardrail
choose_guardrail to_lower env =
    let mode = Config.get env (codes "GUARDRAILS_MODE") (codes "off") in
    if text_eq mode (codes "redact") || text_eq mode (codes "block")
    then check to_lower (new_policy to_lower mode (split b',' (setting env "GUARDRAILS_DENYLIST")))
    else noop_guardrail

pub record Clients (W : Type 0) : Type 0 where
  pub marshal_event : UsageEvent → Result Text
  pub marshal_response : ChatResponse → Result Text
  pub unmarshal_response : Text → Result ChatResponse
  pub kafka : List Text → Writer W
  pub redis : Text → Redis W
  pub budget : Text → Result (AllowRequest → Proc W AllowResponse)
  pub identity : Text → Result (ResolveRequest → Proc W ResolveResponse)

module _ {W : Type 0} (to_lower : Text → Text) (env : Environ) (clients : Clients W) where
  -- The service and the resolver that `main` makes of the environment, or the error of a client.
  unfoldable pub assemble : Proc W (Ports W × Option (CallerResolver W))
  assemble = do
    budget ← lift (choose_budget env clients.budget)
    resolver ← lift (choose_resolver env clients.identity)
    pure (
      record {
        provider = echo;
        publish = choose_publisher env clients.marshal_event clients.kafka;
        budget = budget;
        cache = choose_cache env clients.marshal_response clients.unmarshal_response clients.redis;
        guardrail = choose_guardrail to_lower env;
      },
      resolver,
    )

  module _ (decode : Text → Result ChatRequest) (sha256_hex : Text → Text) (m : Machine W)
      (sleep : ℕ → W → W) (start : (W → Bool × W) → W → W) (host : Host W (Endpoints W)) where
    unfoldable pub gateway_main : Proc W (Unit {0})
    gateway_main = do
      (ports, resolver) ← assemble
      change (start (warm_up sleep ports.budget resolver 10))
      Httpx.run host (register decode sha256_hex m ports resolver)
          (Config.get env (codes "GATEWAY_ADDR") (codes ":8080"))
