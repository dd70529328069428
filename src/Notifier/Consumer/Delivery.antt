-- ===== src/Notifier/Consumer/Delivery.antt =====
-- What is delivered of an alert, and when the notifier stops.
use marginpilot.Base.{
  Text, is_empty, ◌≡◌, ◌⊎◌, inl, inr, refl, Bool, true, false, Bool-cases, Result, Error, ok, err,
  failure, pure, raise, if◌then◌else◌, leb, after_bind, lift,
}
use marginpilot.Shared.Events.{AlertEvent}
use marginpilot.External.Http.{HttpClient}
use marginpilot.Notifier.Consumer.{handle_alert, deliver, post_webhook, webhook_request}

pub branch-world :
    {W : Type 0} (b : Bool) (e : Error) (w : W) → ((if b then raise e else pure tt) w).1 ≡ w
branch-world true e w = refl
branch-world false e w = refl

module _ {W : Type 0} (unmarshal : Text → Result AlertEvent) (client : HttpClient W)
    (webhook : Text) where
  -- The world after exactly one request, with the payload as it came.
  abbrev pub posted : Text → W → W
  posted payload w = (client.send (webhook_request webhook payload) w).1

  abbrev Sent : Text → W → Result (Unit {0}) × W → Type 0
  Sent payload w out =
      (out.1 ≡ w) ⊎ ((client.parse_url webhook ≡ ok tt) × (out.1 ≡ posted payload w))

  post_webhook-world :
      (payload : Text) (w : W) → Sent payload w (post_webhook unmarshal client webhook payload w)
  unfolding post_webhook
  post_webhook-world payload w =
      after_bind (Sent payload w) (lift (client.parse_url webhook)) _ w
        (λ _ valid.
          after_bind (Sent payload w) (client.send (webhook_request webhook payload)) _ w
            (λ resp _. inr (valid, branch-world (leb 300 resp.code) (failure _) (posted payload w)))
            (λ _ _. inr (valid, refl)))
        (λ _ _. inl refl)

  abbrev Delivered : Text → W → Result (Unit {0}) × W → Type 0
  Delivered payload w out =
      (out.0 ≡ ok tt)
      × ((out.1 ≡ w)
          ⊎ ((a : AlertEvent) × (unmarshal payload ≡ ok a)
              × (is_empty webhook ≡ false)
              × (client.parse_url webhook ≡ ok tt)
              × (out.1 ≡ posted payload w)))

  deliver-Delivered :
      (payload : Text) (decoded : Result AlertEvent) (w : W)
      → unmarshal payload ≡ decoded
      → Delivered payload w (deliver unmarshal client webhook payload decoded w)
  unfolding deliver
  deliver-Delivered payload (err e) w h = (refl, inl refl)
  deliver-Delivered payload (ok a) w h = elim (Bool-cases (is_empty webhook)) [
    | inl empty ↦ rw empty (refl, inl refl)
    | inr other ↦ rw other (
      refl,
      elim (post_webhook-world payload w) [
        | inl same ↦ inl same
        | inr (valid, sent) ↦ inr (a, h, refl, valid, sent)
      ],
    )
  ]

  -- Delivery never fails: an alert that decodes is posted to the webhook in at most one request, and
  -- nothing is sent for a payload that does not decode or where no webhook is set.
  pub handle_alert-delivery :
      (payload : Text) (w : W)
      → let out = handle_alert unmarshal client webhook payload w in
        (out.0 ≡ ok tt)
        × ((out.1 ≡ w)
            ⊎ ((a : AlertEvent) × (unmarshal payload ≡ ok a)
                × (is_empty webhook ≡ false)
                × (client.parse_url webhook ≡ ok tt)
                × (out.1 ≡ posted payload w)))
  unfolding handle_alert
  handle_alert-delivery payload w = deliver-Delivered payload (unmarshal payload) w refl
