-- ===== src/Billing/Routes.antt =====
-- `Register` of services/billing/internal/httpapi/handler.go.
pub mod Dispatches
use marginpilot.Base.{Text, codes, List, [], ◌∷◌, Option, none, some, Proc}
use marginpilot.External.Machine.{Machine}
use marginpilot.External.Mux.{Params, Table, Dispatch, found, path_value}
use marginpilot.Shared.Server.{Endpoint, health, handler}
use marginpilot.Billing.Store.{Subscriptions}
use marginpilot.Billing.Cogs.{UsageSums}
use marginpilot.Billing.Exporter.{Exporter}
use marginpilot.Billing.Handler.{Float64, Reply, invoice_tenant, invoice_customer, export_usage}

-- A handler, on the values of the wildcards of its pattern.
abbrev pub Endpoints : Type 0 → Type 0 → Type 0
Endpoints W F = Table (Params → Proc W (Reply F))

module _ {W F : Type 0} (float : Float64 F) (m : Machine W) (db : Subscriptions W)
    (ch : UsageSums W) (exporter : Exporter W) where
  abbrev on_tenant : Params → Proc W (Reply F)
  on_tenant ps = invoice_tenant float db ch m exporter (path_value ps (codes "tenant"))

  abbrev on_customer : Params → Proc W (Reply F)
  on_customer ps =
      invoice_customer float db ch m exporter (path_value ps (codes "tenant"))
        (path_value ps (codes "customer"))

  abbrev on_export : Params → Proc W (Reply F)
  on_export ps =
      export_usage float db ch m exporter (path_value ps (codes "tenant"))
        (path_value ps (codes "customer"))

  unfoldable pub register : Endpoints W F
  register =
      (codes "GET /v1/invoice/{tenant}", on_tenant)
      ∷ (codes "GET /v1/invoice/{tenant}/{customer}", on_customer)
      ∷ (codes "POST /v1/export/{tenant}/{customer}", on_export)
      ∷ []

-- What a service does with a request, if one of its own handlers serves it.
abbrev pub served :
    {W F : Type 0} → Dispatch (Endpoint (Params → Proc W (Reply F))) → Option (Proc W (Reply F))
served (found (handler h) ps) = some (h ps)
served _ = none
