-- ===== src/System/Tests/Announced.antt =====
-- A denial over a broker in memory and a client that accepts everything, with a codec that packs the
-- fields of an alert one behind the other.
use marginpilot.Base.{
  ℕ, zero, suc, Text, codes, [], ◌∷◌, ◌++◌, length, ◌≡◌, refl, true, false, some, Result, ok, pos,
  sub64, wrap64,
}
use marginpilot.Shared.Events.{AlertEvent}
use marginpilot.External.Machine.{Machine, frozen}
use marginpilot.External.Http.{HttpClient}
use marginpilot.External.Kafka.Memory.{Queues, memory_broker, memory_broker-IsBroker}
use marginpilot.Contract.Budget.{AllowRequest, AllowResponse}
use marginpilot.Budget.Enforcer.{SpendStore, Enforcer, reason_budget, decide, effective_limit}
use marginpilot.Budget.Enforcer
use marginpilot.Budget.Server.{Server, Alert, allow}
use marginpilot.Budget.Alerter.{publish, alert_writer}
use marginpilot.System.Alerts.{IsCodec, Announced, IsQuiet, allow-Announced}

cut : ℕ → Text → Text × Text
cut zero s = ([], s)
cut (suc n) [] = ([], [])
cut (suc n) (c ∷ s) = let (a, b) = cut n s in (c ∷ a, b)

cut-append : (a b : Text) → cut (length a) (a ++ b) ≡ (a, b)
unfolding cut
cut-append [] b = refl
cut-append (c ∷ a) b = rw (cut-append a b) refl

packed : Text → Text → Text
packed a b = length a ∷ (a ++ b)

field : Text → Text × Text
field [] = ([], [])
field (n ∷ s) = cut n s

field-packed : (a b : Text) → field (packed a b) ≡ (a, b)
unfolding field packed
field-packed a b = cut-append a b

first : Text → ℕ
first [] = 0
first (n ∷ s) = n

pack : AlertEvent → Text
pack e = packed e.alert_id (
    packed e.type (
      packed e.severity
        (packed e.tenant_id (packed e.customer_id (packed e.message (e.occurred_at ∷ []))))))

marshal : AlertEvent → Result Text
marshal e = ok (pack e)

unmarshal : Text → Result AlertEvent
unmarshal s =
    let (id, s₁) = field s in
    let (type, s₂) = field s₁ in
    let (severity, s₃) = field s₂ in
    let (tenant, s₄) = field s₃ in
    let (customer, s₅) = field s₄ in
    let (message, s₆) = field s₅ in
    ok (record {
      alert_id = id;
      type = type;
      severity = severity;
      tenant_id = tenant;
      customer_id = customer;
      message = message;
      occurred_at = first s₆;
    })

unmarshal-pack : (e : AlertEvent) → unmarshal (pack e) ≡ ok e
unfolding unmarshal pack first
unmarshal-pack e =
    rw
      (
        field-packed e.alert_id _,
        field-packed e.type _,
        field-packed e.severity _,
        field-packed e.tenant_id _,
        field-packed e.customer_id _,
        field-packed e.message _,
      )
      refl

codec : IsCodec marshal unmarshal
unfolding marshal
codec = record {
  encoding = pack;
  marshal-encoding = λ e. refl;
  unmarshal-encoding = unmarshal-pack;
}

-- A store in which nobody has a limit or has spent anything.
abbrev store : SpendStore Queues
store = record {
  spend = λ t c w. (ok (pos 0), w);
  limit = λ t c w. (ok (pos 0), w);
  set_limit = λ t c z w. (ok tt, w);
  allow_rate = λ t c w. (ok true, w);
}

abbrev machine : Machine Queues
machine = frozen 7 (1 ∷ 0xab ∷ [])

abbrev nobody : Server Queues
nobody = record {
  enforcer = record { store = store; default_limit = pos 0 };
  alerter = some (publish marshal (memory_broker.writer (alert_writer [])));
}

abbrev accepting : HttpClient Queues
accepting = record {
  parse_url = λ url. ok tt;
  send = λ req w. (ok (record { code = 204; status = []; body = [] }), w);
}

abbrev request : AllowRequest
request = record { tenant_id = codes "acme"; customer_id = codes "c1" }

abbrev refusal : AllowResponse
refusal = record { allowed = false; remaining_micros = pos 0; reason = reason_budget }

abbrev alert : Alert
alert = record { tenant = codes "acme"; customer = codes "c1"; reason = reason_budget }

abbrev empty_queues : Queues
empty_queues topic = []

machine-IsQuiet : IsQuiet machine marshal unmarshal codec memory_broker memory_broker-IsBroker []
machine-IsQuiet w k = (refl, refl)

allow-Announced_example :
    Announced machine marshal unmarshal codec memory_broker memory_broker-IsBroker [] nobody
      accepting
      (codes "https://hooks.example")
      request
      refusal
      alert
      empty_queues
      empty_queues
unfolding allow Enforcer.allow decide sub64 wrap64 effective_limit
allow-Announced_example =
    allow-Announced machine marshal unmarshal codec memory_broker memory_broker-IsBroker [] nobody
      accepting (codes "https://hooks.example") request refusal alert empty_queues empty_queues
      empty_queues machine-IsQuiet refl refl refl
