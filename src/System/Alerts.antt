-- ===== src/System/Alerts.antt =====
-- From a denial of the budget service to the webhook of the notifier: budget, backbone and notifier.
use marginpilot.Base.{
  ℕ, suc, Text, text_eq_refl, Mem, Mem-append_right, codes, List, ◌∷◌, ◌++◌, is_empty, ◌≡◌, ◌⊎◌,
  inl, inr, refl, false, some, Result, ok, continue, after_bind, leb, failure, ap, ◌∙◌, some-eq,
}
use marginpilot.Shared.Events.{AlertEvent, topic_alerts}
use marginpilot.External.Machine.{Machine}
use marginpilot.External.Hex
use marginpilot.External.Kafka.{Message, WriterConfig, Broker, IsBroker, keyed, copies}
use marginpilot.External.Http.{HttpClient}
use marginpilot.Contract.Budget.{AllowRequest, AllowResponse}
use marginpilot.Budget.Enforcer.{reason_rate, reason_budget}
use marginpilot.Budget.Server.{Server, Alert, allow, send_alert, new_id}
use marginpilot.Budget.Server.Alerts.{allow-alert}
use marginpilot.Budget.Alerter.{publish, alert_writer}
use marginpilot.Notifier.Consumer.{
  handle_alert, deliver, post_webhook, webhook_request, alert_reader,
}
use marginpilot.Notifier.Consumer.Delivery.{posted, branch-world}

module _ {W : Type 0} (unmarshal : Text → Result AlertEvent) (client : HttpClient W)
    (webhook : Text) where
  post_webhook-posted :
      (payload : Text) (w : W)
      → client.parse_url webhook ≡ ok tt
      → (post_webhook unmarshal client webhook payload w).1
        ≡ posted unmarshal client webhook payload w
  unfolding post_webhook
  post_webhook-posted payload w valid =
      rw (valid, continue)
        (after_bind
          (λ (out : Result (Unit {0}) × W). out.1 ≡ posted unmarshal client webhook payload w)
          (client.send (webhook_request webhook payload)) _ w
          (λ resp _. branch-world (leb 300 resp.code) (failure _) _) (λ _ _. refl))

  -- An alert that decodes is posted, where a webhook is set.
  handle_alert-posted :
      (payload : Text) (e : AlertEvent) (w : W)
      → unmarshal payload ≡ ok e
      → is_empty webhook ≡ false
      → client.parse_url webhook ≡ ok tt
      → (handle_alert unmarshal client webhook payload w).1
        ≡ posted unmarshal client webhook payload w
  unfolding handle_alert deliver
  handle_alert-posted payload e w decoded filled valid =
      rw (decoded, filled) (post_webhook-posted payload w valid)

-- The JSON codec of alerts: what it encodes is decoded again.
pub record IsCodec (marshal : AlertEvent → Result Text) (unmarshal : Text → Result AlertEvent)
    : Type 0 where
  pub encoding : AlertEvent → Text
  pub marshal-encoding : (e : AlertEvent) → marshal e ≡ ok (encoding e)
  pub unmarshal-encoding : (e : AlertEvent) → unmarshal (encoding e) ≡ ok e

-- What an alert says of the request that was denied.
pub record Reports (req : AllowRequest) (resp : AllowResponse) (e : AlertEvent) : Type 0 where
  pub denied : resp.allowed ≡ false
  pub of_type : e.type ≡ resp.reason
  pub known : (e.type ≡ reason_rate) ⊎ (e.type ≡ reason_budget)
  pub of_tenant : e.tenant_id ≡ req.tenant_id
  pub of_customer : e.customer_id ≡ req.customer_id
  pub said : e.message ≡ codes "request blocked: " ++ resp.reason

module _ {W : Type 0} (m : Machine W) (marshal : AlertEvent → Result Text)
    (unmarshal : Text → Result AlertEvent) (codec : IsCodec marshal unmarshal) (broker : Broker W)
    {arrivals : WriterConfig → Message → W → ℕ} {waiting : W → Text → Text → Text → List Message}
    (laws : IsBroker broker arrivals waiting) (brokers : List Text) where
  -- What the notifier has yet to read of a key.
  abbrev pub pending : W → Text → List Message
  pending w k = waiting w topic_alerts (alert_reader brokers).group_id k

  -- The clock and the random source leave the backbone alone.
  abbrev pub IsQuiet : Type 0
  IsQuiet =
      (w : W) (k : Text)
      → (pending (m.now w).1 k ≡ pending w k) × (pending (m.random w).1 k ≡ pending w k)

  -- The world in which an alert is published: its identifier and its time are drawn.
  abbrev pub stamped : W → W
  stamped w = (m.now (m.random w).1).1

  module _ (s : Server W) (client : HttpClient W) (webhook : Text) where
    -- What follows of a denial: an event, its message on the backbone and its request at the webhook.
    pub record Announced (req : AllowRequest) (resp : AllowResponse) (a : Alert) (w w' : W)
        : Type 0 where
      pub event : AlertEvent
      pub sent : Message
      pub reports : Reports req resp event
      pub keyed_by : sent.key ≡ req.tenant_id ++ b':' ∷ req.customer_id
      pub carries : unmarshal sent.value ≡ ok event
      pub written :
          (send_alert m (publish marshal (broker.writer (alert_writer brokers))) a w).1
          ≡ (broker.writer (alert_writer brokers) sent (stamped w)).1
      pub arrives :
          (k : Text)
          → pending (send_alert m (publish marshal (broker.writer (alert_writer brokers))) a w).1 k
            ≡ pending w k
              ++ keyed k (copies (arrivals (alert_writer brokers) sent (stamped w)) sent)
      pub waits :
          (n : ℕ)
          → arrivals (alert_writer brokers) sent (stamped w) ≡ suc n
          → Mem sent (
              pending
                (send_alert m (publish marshal (broker.writer (alert_writer brokers))) a w).1
                sent.key)
      pub posts :
          (handle_alert unmarshal client webhook sent.value w').1
          ≡ posted unmarshal client webhook sent.value w'

    abbrev event_of : Alert → W → AlertEvent
    event_of a w = record {
      alert_id = Hex.encode (m.random w).0;
      type = a.reason;
      severity = codes "warning";
      tenant_id = a.tenant;
      customer_id = a.customer;
      message = codes "request blocked: " ++ a.reason;
      occurred_at = (m.now (m.random w).1).0;
    }

    abbrev message_of : AlertEvent → Message
    message_of e = record { key = e.tenant_id ++ b':' ∷ e.customer_id; value = codec.encoding e }

    denial :
        (req : AllowRequest) (resp : AllowResponse) (a : Alert) (w : W)
        → (allow s req w).0 ≡ ok (resp, some a)
        → (resp.allowed ≡ false)
          × (a
              ≡ record { tenant = req.tenant_id; customer = req.customer_id; reason = resp.reason })
          × ((resp.reason ≡ reason_rate) ⊎ (resp.reason ≡ reason_budget))
    denial req resp a w h = elim (allow-alert s req w resp (some a) h) [
      | inl (refused, _, same, why) ↦ (refused, some-eq same, why)
      | inr (_, other) ↦ cc
    ]

    pending-sent :
        (a : Alert) (w : W) (k : Text)
        → IsQuiet
        → pending (send_alert m (publish marshal (broker.writer (alert_writer brokers))) a w).1 k
          ≡ pending w k
            ++ keyed k (
                copies
                  (arrivals (alert_writer brokers) (message_of (event_of a w)) (stamped w))
                  (message_of (event_of a w)))
    unfolding send_alert new_id publish alert_writer
    pending-sent a w k quiet =
        rw (codec.marshal-encoding (event_of a w), continue)
          (laws.waiting-writer (alert_writer brokers) (message_of (event_of a w)) topic_alerts
              (alert_reader brokers).group_id k (stamped w) refl
            ∙ ap
                (λ (l : List Message).
                  l
                  ++ keyed k (
                      copies
                        (arrivals (alert_writer brokers) (message_of (event_of a w)) (stamped w))
                        (message_of (event_of a w))))
                ((quiet (m.random w).1 k).0 ∙ (quiet w k).1))

    send_alert-written :
        (a : Alert) (w : W)
        → (send_alert m (publish marshal (broker.writer (alert_writer brokers))) a w).1
          ≡ (broker.writer (alert_writer brokers) (message_of (event_of a w)) (stamped w)).1
    unfolding send_alert new_id publish
    send_alert-written a w = rw (codec.marshal-encoding (event_of a w), continue) refl

    pending-waits :
        (sent : Message) (n : ℕ) (before after : List Message)
        → after ≡ before ++ keyed sent.key (copies (suc n) sent)
        → Mem sent after
    unfolding keyed copies
    pending-waits sent n before after h =
        rw h (Mem-append_right sent before _ (rw text_eq_refl (inl refl)))

    -- With a JSON codec that decodes what it encodes, a broker that keeps its laws, a clock and a
    -- random source that leave the backbone alone, and a webhook that is set and parses: when a
    -- request was denied and an alert started, sending it is one write to the topic of the alerts, of
    -- a message under the tenant and the customer of the request; this message, as often as it
    -- arrives, and no other is added to what the notifier has yet to read, so it waits there if it
    -- arrives at all; and whenever the notifier handles this message, it posts it to the webhook in
    -- one request. The message decodes to an event of type "rate_limit" or "budget", the reason of
    -- the answer, that names the tenant and the customer of the request.
    pub allow-Announced :
        (req : AllowRequest) (resp : AllowResponse) (a : Alert) (w w₁ w₂ : W)
        → IsQuiet
        → is_empty webhook ≡ false
        → client.parse_url webhook ≡ ok tt
        → (allow s req w).0 ≡ ok (resp, some a)
        → Announced req resp a w₁ w₂
    allow-Announced req resp a w w₁ w₂ quiet filled valid h =
        let (refused, same, why) = denial req resp a w h in
        let reason = ap (λ (b : Alert). b.reason) same in
        let tenant = ap (λ (b : Alert). b.tenant) same in
        let customer = ap (λ (b : Alert). b.customer) same in
        record {
          event = event_of a w₁;
          sent = message_of (event_of a w₁);
          reports = record {
            denied = refused;
            of_type = reason;
            known = rw reason why;
            of_tenant = tenant;
            of_customer = customer;
            said = ap (λ (t : Text). codes "request blocked: " ++ t) reason;
          };
          keyed_by = rw (tenant, customer) refl;
          carries = codec.unmarshal-encoding (event_of a w₁);
          written = send_alert-written a w₁;
          arrives = λ k. pending-sent a w₁ k quiet;
          waits = λ n once.
              pending-waits (message_of (event_of a w₁)) n
                (pending w₁ (message_of (event_of a w₁)).key) _
                (rw once at (pending-sent a w₁ (message_of (event_of a w₁)).key quiet));
          posts =
              handle_alert-posted unmarshal client webhook (codec.encoding (event_of a w₁))
                (event_of a w₁) w₂ (codec.unmarshal-encoding (event_of a w₁)) filled valid;
        }
