-- ===== src/Identity/Server.antt =====
-- services/identity/internal/adapter/grpcserver/server.go
pub mod Keys
use marginpilot.Base.{Text, [], Option, none, some, true, false, Proc, pure, ◌>>=◌}
use marginpilot.External.Postgres.{Table}
use marginpilot.Contract.Identity.{ResolveRequest, ResolveResponse}
use marginpilot.Identity.Store.{Caller}
use marginpilot.Identity.Store

unfoldable pub response : Option Caller → ResolveResponse
response none = record { found = false; tenant_id = []; customer_id = []; feature = [] }
response (some r) = record {
  found = true;
  tenant_id = r.tenant_id;
  customer_id = r.customer_id;
  feature = r.feature;
}

-- `Resolve`
unfoldable pub resolve :
    {W : Type 0} → (Text → Text) → Table W Caller → ResolveRequest → Proc W ResolveResponse
unfolding response
resolve hash keys req = do r ← Store.resolve hash keys req.api_key; pure (response r)
