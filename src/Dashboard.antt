-- ===== src/Dashboard.antt =====
-- services/dashboard/cmd/dashboard/main.go: the documents of a tenant's overview, the simulated
-- request, the page, and the routes and settings of `main`. A URL that does not parse leaves Go with no request, on which the client panics: an error here. The JSON encoder of an
-- error message and the texts of errors are parameters.
pub mod Documents
use marginpilot.Base.{
  ℕ, ◌/◌, ◌%◌, ◌∷◌, some, always, Text, codes, ◌++◌, [], is_empty, text_eq, leb, ◌||◌, none,
  if◌then◌else◌, Proc, Result, Error, ok, err, pure, lift, attempt, ◌>>=◌, ◌>>◌,
}
use marginpilot.Base.Decimal.{pad}
use marginpilot.Shared.Calendar.{Time, nanos}
use marginpilot.Shared.Config.{Environ}
use marginpilot.Shared.Config
use marginpilot.Shared.Server.{Host}
use marginpilot.Shared.Server as Httpx
use marginpilot.External.Machine.{Machine}
use marginpilot.External.Mux.{Table}
use marginpilot.External.Http.{HttpClient, HttpRequest, HttpResponse, raw}

-- `tenantOf`, of the query parameter `tenant`, empty where there is none
unfoldable pub tenant_of : Text → Text
tenant_of t = if is_empty t then codes "demo-tenant" else t

-- `keyFor`
unfoldable pub key_for : Text → Text
key_for tenant = if text_eq tenant (codes "northwind") then codes "sk-north" else codes "sk-demo"

unfoldable pub get_request : Text → HttpRequest
get_request url = record {
  method = codes "GET";
  url = url;
  content_type = [];
  user = none;
  authorization = none;
  content = raw [];
}

pub record Overview : Type 0 where
  pub invoice : Text
  pub forecast : Text
  pub anomalies : Text
  pub usage : Text

module _ (encode_error : Text → Text) (error_text : Error → Text) where
  -- The end of `get`, on what the client answered.
  unfoldable pub document : Result HttpResponse → Text
  document (err e) = encode_error (error_text e)
  document (ok resp) =
      if leb 300 resp.code || is_empty resp.body then encode_error resp.status else resp.body

  module _ {W : Type 0} (client : HttpClient W) where
    -- `get`
    unfoldable pub get_json : Text → Proc W Text
    unfolding document
    get_json url = do
      lift (client.parse_url url)
      resp ← attempt (client.send (get_request url))
      pure (document resp)

    -- `overview`
    unfoldable pub overview : Text → Text → Text → Proc W Overview
    unfolding get_json
    overview billing analytics t = do
      let tenant = tenant_of t
      invoice ← get_json (billing ++ (codes "/v1/invoice/" ++ tenant))
      forecast ← get_json (analytics ++ (codes "/v1/forecast/" ++ tenant))
      anomalies ← get_json (analytics ++ (codes "/v1/anomalies/" ++ tenant))
      usage ← get_json (analytics ++ (codes "/v1/usage_timeseries/" ++ tenant))
      pure (record { invoice = invoice; forecast = forecast; anomalies = anomalies; usage = usage })

-- `Format("15:04:05.000")` of an instant of local time, which the calendar counts from midnight.
unfoldable pub time_of_day : Time → Text
time_of_day t =
    let second = t / nanos in
    pad 2 (second / 3600 % 24)
    ++ (b':' ∷ pad 2 (second / 60 % 60))
    ++ (b':' ∷ pad 2 (second % 60))
    ++ (b'.' ∷ pad 3 (t / 1_000_000 % 1000))

-- The request of `simulate`.
unfoldable pub simulate_request : Text → Text → Text → HttpRequest
unfolding key_for time_of_day
simulate_request gateway tenant time = record {
  method = codes "POST";
  url = gateway ++ codes "/v1/chat/completions";
  content_type = codes "application/json";
  user = none;
  authorization = some (codes "Bearer " ++ key_for tenant);
  content = raw (
      codes
        "{\"model\":\"gpt-4o-mini\",\"messages\":[{\"role\":\"user\",\"content\":\"dashboard demo "
      ++ time
      ++ codes "\"}]}");
}

-- The document that `simulate` answers.
pub record Simulated : Type 0 where
  pub tenant : Text
  pub gateway_status : ℕ

abbrev status_of : Result HttpResponse → ℕ
status_of (ok resp) = resp.code
status_of (err e) = 0

module _ {W : Type 0} (client : HttpClient W) (m : Machine W) where
  -- `simulate`; the clock shows local time
  unfoldable pub simulate : Text → Text → Proc W Simulated
  unfolding simulate_request
  simulate gateway t = do
    let tenant = tenant_of t
    now ← always m.now
    let req = simulate_request gateway tenant (time_of_day now)
    lift (client.parse_url req.url)
    resp ← attempt (client.send req)
    pure (record { tenant = tenant; gateway_status = status_of resp })

-- The page at `/`; every other path is not found.
unfoldable pub page : Text → Text → HttpResponse
page index_html path =
    if text_eq path (codes "/")
    then record { code = 200; status = codes "200 OK"; body = index_html }
    else record { code = 404; status = codes "404 Not Found"; body = codes "404 page not found\n" }

-- The base URLs that `main` reads from the environment.
pub record Server : Type 0 where
  pub gateway : Text
  pub billing : Text
  pub analytics : Text

unfoldable pub new_server : Environ → Server
new_server env = record {
  gateway = Config.get env (codes "GATEWAY_URL") (codes "http://localhost:18080");
  billing = Config.get env (codes "BILLING_URL") (codes "http://localhost:18085");
  analytics = Config.get env (codes "ANALYTICS_URL") (codes "http://localhost:18000");
}

-- A request at the dashboard: its path, and the parameter `tenant` of its query.
pub record Visit : Type 0 where
  pub path : Text
  pub tenant : Text

pub data Payload : Type 0 where
  of_overview : Overview → Payload
  of_simulated : Simulated → Payload

-- A page, or a status and a document that is encoded as JSON (`writeJSON`).
pub data Answer : Type 0 where
  static : HttpResponse → Answer
  json : ℕ → Payload → Answer

abbrev pub Endpoints : Type 0 → Type 0
Endpoints W = Table (Visit → Proc W Answer)

module _ {W : Type 0} (encode_error : Text → Text) (error_text : Error → Text) (index_html : Text)
    (client : HttpClient W) (m : Machine W) where
  -- The handlers that `main` registers.
  unfoldable pub routes : Server → Endpoints W
  routes s =
      (codes "GET /", λ v. pure (static (page index_html v.path)))
      ∷ (
        codes "GET /api/overview",
        λ v. do
          o ← overview encode_error error_text client s.billing s.analytics v.tenant
          pure (json 200 (of_overview o)),
      )
      ∷ (
        codes "POST /api/simulate",
        λ v. do done ← simulate client m s.gateway v.tenant; pure (json 200 (of_simulated done)),
      )
      ∷ []

  -- `main`, which only logs the error of its server
  unfoldable pub dashboard_main : Environ → Host W (Endpoints W) → Proc W (Unit {0})
  dashboard_main env host = do
    attempt (
        Httpx.run host (routes (new_server env))
          (Config.get env (codes "DASHBOARD_ADDR") (codes ":8087")))
    pure tt
