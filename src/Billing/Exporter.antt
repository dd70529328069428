-- ===== src/Billing/Exporter.antt =====
-- services/billing/internal/stripe: the port `Exporter` and its two adapters, without their logs.
use marginpilot.Base.{
  Text, codes, [], ◌∷◌, ◌++◌, is_empty, leb, none, some, if◌then◌else◌, ℤ, Proc, failure, pure,
  raise, lift, ◌>>=◌, ◌>>◌,
}
use marginpilot.Base.Decimal.{print_ℤ}
use marginpilot.External.Http.{HttpClient, HttpRequest, form}

-- The port `Exporter`.
abbrev pub Exporter : Type 0 → Type 0
Exporter W = Text → Text → ℤ → Proc W (Unit {0})

-- exporter.go: `Mock`
abbrev pub mock_export : {W : Type 0} → Exporter W
mock_export tenant customer micros = pure tt

-- The request of http.go.
unfoldable pub meter_request : Text → Text → Text → ℤ → HttpRequest
meter_request api_key meter_name customer micros = record {
  method = codes "POST";
  url = codes "https://api.stripe.com/v1/billing/meter_events";
  content_type = codes "application/x-www-form-urlencoded";
  user = some api_key;
  authorization = none;
  content = form (
      (codes "event_name", meter_name)
      ∷ (codes "payload[stripe_customer_id]", customer)
      ∷ (codes "payload[value]", print_ℤ micros)
      ∷ []);
}

-- http.go: `ExportUsage`
unfoldable pub http_export : {W : Type 0} → HttpClient W → Text → Text → Exporter W
unfolding meter_request
http_export client api_key meter_name tenant customer micros = do
  let req = meter_request api_key meter_name customer micros
  lift (client.parse_url req.url)
  resp ← client.send req
  if leb 300 resp.code then raise (failure (codes "stripe returned " ++ resp.status)) else pure tt

-- exporter.go: `New`
unfoldable pub new_exporter : {W : Type 0} → HttpClient W → Text → Text → Exporter W
unfolding http_export
new_exporter client api_key meter_name =
    if is_empty api_key then mock_export else http_export client api_key meter_name
