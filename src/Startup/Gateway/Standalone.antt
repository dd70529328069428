-- ===== src/Startup/Gateway/Standalone.antt =====
-- The gateway with nothing configured.
use marginpilot.Base.{Text, codes, [], is_empty, ◌≡◌, refl, Option, none, false, Result, ok}
use marginpilot.Shared.Config.{Environ}
use marginpilot.Shared.Config
use marginpilot.External.Machine.{Machine}
use marginpilot.Gateway.Domain.{ChatRequest}
use marginpilot.Gateway.Port.{Ports, CallerResolver}
use marginpilot.Gateway.Adapters.{allow_all, noop_cache, noop_guardrail, stdout_publish}
use marginpilot.Gateway.Echo.{echo}
use marginpilot.Gateway.Echo
use marginpilot.Gateway.Service.{proxy, after_lookup, upstream, forward, emit}
use marginpilot.Gateway.Http.{
  Request, completion, bearer, answer, resolve_caller, complete, with_caller, chat_completions,
}
use marginpilot.Startup.Wiring.{choose_publisher, choose_budget, choose_cache, choose_resolver}
use marginpilot.Startup.Gateway.{Clients, choose_guardrail, assemble}

-- No variable of the environment is set.
abbrev pub IsBare : Environ → Type 0
IsBare env = (name : Text) → env name ≡ none

get-bare :
    (env : Environ) (name fallback : Text) → IsBare env → Config.get env name fallback ≡ fallback
unfolding Config.get
get-bare env name fallback bare = rw (bare name) refl

module _ {W : Type 0} (to_lower : Text → Text) (env : Environ) (clients : Clients W) where
  abbrev alone : Ports W
  alone = record {
    provider = echo;
    publish = stdout_publish clients.marshal_event;
    budget = allow_all;
    cache = noop_cache;
    guardrail = noop_guardrail;
  }

  assemble-bare : (w : W) → IsBare env → assemble to_lower env clients w ≡ (ok (alone, none), w)
  unfolding assemble choose_guardrail choose_publisher choose_budget choose_cache choose_resolver
  assemble-bare w bare =
      rw
        (
          get-bare env (codes "KAFKA_BROKERS") [] bare,
          get-bare env (codes "BUDGET_GRPC_TARGET") [] bare,
          get-bare env (codes "REDIS_ADDR") [] bare,
          get-bare env (codes "IDENTITY_GRPC_TARGET") [] bare,
          get-bare env (codes "GUARDRAILS_MODE") (codes "off") bare,
        )
        refl

  module _ (decode : Text → Result ChatRequest) (sha256_hex : Text → Text) (m : Machine W) where
    chat_completions-alone :
        (r : Request) (req : ChatRequest) (w : W)
        → is_empty (bearer (r.header (codes "Authorization"))) ≡ false
        → decode r.body ≡ ok req
        → (chat_completions decode sha256_hex m alone none r w).0
          ≡ ok (answer (ok (Echo.complete req)))
    unfolding chat_completions resolve_caller with_caller complete proxy after_lookup upstream
        forward emit
    chat_completions-alone r req w keyed decoded = rw (keyed, decoded) refl

    -- With nothing configured the gateway comes up and works alone: every request that carries a key
    -- and whose body decodes is answered 200 with the completion of the echo provider.
    standalone :
        (r : Request) (req : ChatRequest) (w w' : W)
        → IsBare env
        → is_empty (bearer (r.header (codes "Authorization"))) ≡ false
        → decode r.body ≡ ok req
        → (ports : Ports W) × (resolver : Option (CallerResolver W)) × (assemble to_lower env
              clients w
            ≡ (ok (ports, resolver), w))
          × ((chat_completions decode sha256_hex m ports resolver r w').0
              ≡ ok (record { status = 200; content = completion (Echo.complete req) }))
    unfolding answer
    standalone r req w w' bare keyed decoded =
        (alone, none, assemble-bare w bare, chat_completions-alone r req w' keyed decoded)
