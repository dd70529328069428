-- ===== src/Startup/Wiring/Callers.antt =====
-- Whom a gateway without an identity service believes.
use marginpilot.Base.{
  Text, codes, [], is_empty, ◌≡◌, refl, Option, none, false, Proc, Result, ok, ok-injective,
}
use marginpilot.Shared.Config.{Environ}
use marginpilot.Contract.Identity.{ResolveRequest, ResolveResponse}
use marginpilot.Gateway.Port.{CallerResolver}
use marginpilot.Gateway.Http.{Request, bearer, header_caller, resolve_caller}
use marginpilot.Startup.Wiring.{choose_resolver, setting}

choose_resolver-none :
    {W : Type 0} (env : Environ) (client : Text → Result (ResolveRequest → Proc W ResolveResponse))
    (resolver : Option (CallerResolver W))
    → setting env "IDENTITY_GRPC_TARGET" ≡ []
    → choose_resolver env client ≡ ok resolver
    → resolver ≡ none
unfolding choose_resolver
choose_resolver-none env client resolver unset h = ok-injective (cc (rw unset at h))

-- A gateway with no target for the identity service accepts every key but the empty one, without
-- a call, and takes tenant, customer and feature from the headers of the request.
pub resolve_caller-open :
    {W : Type 0} (env : Environ) (client : Text → Result (ResolveRequest → Proc W ResolveResponse))
    (resolver : Option (CallerResolver W)) (r : Request) (w : W)
    → setting env "IDENTITY_GRPC_TARGET" ≡ []
    → choose_resolver env client ≡ ok resolver
    → is_empty (bearer (r.header (codes "Authorization"))) ≡ false
    → resolve_caller resolver r w ≡ (ok (header_caller r), w)
unfolding resolve_caller
resolve_caller-open env client resolver r w unset chosen keyed =
    rw (choose_resolver-none env client resolver unset chosen, keyed) refl
