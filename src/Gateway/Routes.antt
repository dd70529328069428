-- ===== src/Gateway/Routes.antt =====
-- `Register` of services/gateway/internal/adapter/inbound/httpapi/handler.go.
pub mod Dispatches
use marginpilot.Base.{Text, codes, [], ◌∷◌, Option, Proc, Result}
use marginpilot.External.Machine.{Machine}
use marginpilot.External.Mux.{Table}
use marginpilot.Gateway.Domain.{ChatRequest}
use marginpilot.Gateway.Port.{Ports, CallerResolver}
use marginpilot.Gateway.Http.{Request, Response, chat_completions}

abbrev pub Endpoints : Type 0 → Type 0
Endpoints W = Table (Request → Proc W Response)

module _ {W : Type 0} (decode : Text → Result ChatRequest) (sha256_hex : Text → Text)
    (m : Machine W) (ports : Ports W) (resolver : Option (CallerResolver W)) where
  unfoldable pub register : Endpoints W
  register =
      (codes "POST /v1/chat/completions", chat_completions decode sha256_hex m ports resolver) ∷ []
