-- ===== src/System/Tests/Visited.antt =====
-- Overviews of two tenants from a dashboard whose client reaches billing's API and nothing else.
use marginpilot.Base.{
  Text, codes, ◌++◌, [], ◌∷◌, ◌≡◌, refl, Option, some, none, Proc, ok, failure, ℤ, pos, raise,
  strip_prefix,
}
use marginpilot.External.Mux.{dispatch, not_allowed, IsUnescape}
use marginpilot.External.Machine.{Machine, frozen}
use marginpilot.External.Http.{HttpClient, HttpResponse}
use marginpilot.Shared.Server.{mux}
use marginpilot.Billing.Store.{Subscription, Subscriptions}
use marginpilot.Billing.Cogs.{UsageSums}
use marginpilot.Billing.Exporter.{mock_export}
use marginpilot.Billing.Handler.{Float64, Reply, invoice_tenant, invoice_customer, export_usage}
use marginpilot.Billing.Routes.{Endpoints, register, served}
use marginpilot.Billing.Routes.Dispatches.{IsName, register-served}
use marginpilot.Dashboard.{Overview, document, get_request, overview, tenant_of}
use marginpilot.System.Urls.{respond, Reaches, overview-invoice}
use marginpilot.System.Tests.{noon}

abbrev World : Type 0
World = Unit {0}

abbrev whole : Float64 ℤ
whole = record { of_int = λ z. z; divide = λ x y. x; times = λ x y. x }

abbrev acme : Subscription
acme = record { customer_id = codes "acme"; plan = codes "pro"; revenue_micros = pos 900 }

abbrev books : Subscriptions World
books = record {
  select_tenant = λ t w. (ok (record { items = ok acme ∷ []; final = ok tt }), w);
  select_one = λ t c w. (ok acme, w);
  insert = λ t s w. (ok tt, w);
}

abbrev sums : UsageSums World
sums = record {
  select_tenant = λ t p w. (ok (record { items = ok (codes "acme", 300) ∷ []; final = ok tt }), w);
  select_customer = λ t c p w. (ok 300, w);
}

abbrev machine : Machine World
machine = frozen noon (codes "id")

-- A body that tells the status only.
abbrev encode : Reply ℤ → HttpResponse
encode r = record { code = r.status; status = []; body = codes "{}" }

abbrev table : Endpoints World ℤ
table = register whole machine books sums mock_export

abbrev base : Text
base = codes "http://billing:8085"

-- The names below have no escapes.
abbrev unescape : Text → Text
unescape t = t

unescape-IsUnescape : IsUnescape unescape
unescape-IsUnescape = record { plain = λ t h. refl; filled = λ t h. h }

abbrev answered : Option (Proc World (Reply ℤ)) → Proc World HttpResponse
answered (some p) = respond encode p
answered none = raise (failure (codes "no handler"))

abbrev reached : Text → Option Text → Proc World HttpResponse
reached method (some path) = answered (served (dispatch unescape (mux table) method path))
reached method none = raise (failure (codes "no host"))

abbrev client : HttpClient World
client = record {
  parse_url = λ url. ok tt;
  send = λ req. reached req.method (strip_prefix base req.url);
}

client-Reaches : Reaches encode unescape client base table
unfolding strip_prefix get_request
client-Reaches path p w plain_path h = rw h refl

abbrev shown : Text → Text
shown url = document (λ t. t) (λ e. codes "failed") (client.send (get_request url) tt).0

abbrev overview_of : Text → Overview
overview_of t = record {
  invoice = shown (base ++ (codes "/v1/invoice/" ++ t));
  forecast = shown (codes "/v1/forecast/" ++ t);
  anomalies = shown (codes "/v1/anomalies/" ++ t);
  usage = shown (codes "/v1/usage_timeseries/" ++ t);
}

north : IsName (codes "north")
north = record {
  filled = refl;
  whole = (λ h. cc, (λ h. cc, (λ h. cc, (λ h. cc, (λ h. cc, tt)))));
  no_dots = refl;
}

sales : IsName (codes "sales")
sales = record {
  filled = refl;
  whole = (λ h. cc, (λ h. cc, (λ h. cc, (λ h. cc, (λ h. cc, tt)))));
  no_dots = refl;
}

register-served_example :
    (served (dispatch unescape (mux table) (codes "GET") (codes "/v1/invoice/north"))
      ≡ some (invoice_tenant whole books sums machine mock_export (codes "north")))
    × (served (dispatch unescape (mux table) (codes "GET") (codes "/v1/invoice/north/sales"))
        ≡ some
            (invoice_customer whole books sums machine mock_export (codes "north") (codes "sales")))
    × (served (dispatch unescape (mux table) (codes "POST") (codes "/v1/export/north/sales"))
        ≡ some (export_usage whole books sums machine mock_export (codes "north") (codes "sales")))
    × (dispatch unescape (mux table) (codes "POST") (codes "/v1/invoice/north/sales") ≡ not_allowed)
register-served_example =
    register-served whole machine books sums mock_export unescape unescape-IsUnescape
      (codes "north") (codes "sales") north sales

overview-invoice_example :
    ((overview_of (codes "north")).invoice
      ≡ document
          (λ t. t)
          (λ e. codes "failed")
          (respond encode
            (invoice_tenant whole books sums machine mock_export (codes "north"))
            tt).0)
    × ((overview_of (codes "north/sales")).invoice
        ≡ document
            (λ t. t)
            (λ e. codes "failed")
            (respond encode
              (invoice_customer whole books sums machine mock_export
                (codes "north")
                (codes "sales"))
              tt).0)
unfolding overview tenant_of strip_prefix
overview-invoice_example =
    overview-invoice (λ t. t) (λ e. codes "failed") client encode whole machine books sums
      mock_export base unescape unescape-IsUnescape client-Reaches [] (codes "north")
      (codes "sales") tt (overview_of (codes "north")) (overview_of (codes "north/sales")) north
      sales refl refl refl refl
