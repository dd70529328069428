-- ===== src/Notifier/Consumer.antt =====
-- services/notifier/internal/consumer/consumer.go, without its log. The JSON decoder is a parameter.
-- `Run` is modelled for a number of rounds, and says whether it has returned.
pub mod Delivery
use marginpilot.Base.{
  ℕ, zero, suc, Text, List, codes, ◌++◌, is_empty, leb, none, Bool, true, false, if◌then◌else◌,
  Proc, Result, Error, ok, err, canceled, failure, pure, raise, lift, attempt, ◌>>=◌, ◌>>◌,
}
use marginpilot.Shared.Events.{AlertEvent, topic_alerts}
use marginpilot.External.Kafka.{Message, Reader, ReaderConfig}
use marginpilot.External.Http.{HttpClient, HttpRequest, raw}

-- `New`, where it reads from
unfoldable pub alert_reader : List Text → ReaderConfig
alert_reader brokers = record {
  brokers = brokers;
  topic = topic_alerts;
  group_id = codes "notifier";
}

abbrev is_canceled : Error → Bool
is_canceled canceled = true
is_canceled _ = false

-- The request of `postWebhook`.
unfoldable pub webhook_request : Text → Text → HttpRequest
webhook_request url payload = record {
  method = codes "POST";
  url = url;
  content_type = codes "application/json";
  user = none;
  authorization = none;
  content = raw payload;
}

module _ {W : Type 0} (unmarshal : Text → Result AlertEvent) (client : HttpClient W)
    (webhook : Text) where
  -- `postWebhook`
  unfoldable pub post_webhook : Text → Proc W (Unit {0})
  unfolding webhook_request
  post_webhook payload = do
    lift (client.parse_url webhook)
    resp ← client.send (webhook_request webhook payload)
    if leb 300 resp.code
        then raise (failure (codes "webhook returned " ++ resp.status))
        else pure tt

  -- `handle` after the payload was decoded, or was not
  unfoldable pub deliver : Text → Result AlertEvent → Proc W (Unit {0})
  unfolding post_webhook
  deliver payload (err e) = pure tt
  deliver payload (ok a) =
      if is_empty webhook then pure tt else (do attempt (post_webhook payload); pure tt)

  -- `handle`
  unfoldable pub handle_alert : Text → Proc W (Unit {0})
  unfolding deliver
  handle_alert payload = deliver payload (unmarshal payload)

  -- What a round of `Run` does with the message or the error that it read, before the next round.
  unfoldable pub next_round : (W → Bool × W) → Result Message → W → Bool × W
  unfolding handle_alert
  next_round next (ok m) w = next (handle_alert m.value w).1
  next_round next (err e) w = if is_canceled e then (true, w) else next w

  -- `Run`
  unfoldable pub run_notifier : Reader W → ℕ → W → Bool × W
  unfolding next_round
  run_notifier read zero w = (false, w)
  run_notifier read (suc rounds) w =
      let next = run_notifier read rounds in let (m, w') = read w in next_round next m w'
