-- ===== src/Notifier/Tests.antt =====
-- The notifier with a webhook that counts its requests: its theorem at a concrete input.
use marginpilot.Base.{ℕ, ◌+◌, Text, codes, [], ◌≡◌, Result, ok, refl}
use marginpilot.Shared.Events.{AlertEvent}
use marginpilot.External.Http.{HttpClient}
use marginpilot.Notifier.Consumer.{handle_alert}

abbrev counting : HttpClient ℕ
counting = record {
  parse_url = λ url. ok tt;
  send = λ req n. (ok (record { code = 204; status = codes "204 No Content"; body = [] }), n + 1);
}

abbrev unmarshal : Text → Result AlertEvent
unmarshal b = ok (record {
  alert_id = codes "a1";
  type = codes "budget";
  severity = codes "warning";
  tenant_id = codes "acme";
  customer_id = codes "c1";
  message = codes "request blocked: budget";
  occurred_at = 0;
})

abbrev hook : Text
hook = codes "https://hooks.example"

one_request : (handle_alert unmarshal counting hook (codes "{}") 0).1 ≡ 1
unfolding handle_alert
one_request = refl
