-- ===== src/System/Priced.antt =====
-- What a request costs its customer by the price catalog: gateway, metering and rating.
use marginpilot.Base.{
  ℕ, ◌+◌, ◌*◌, ◌/◌, ◌^◌, ◌<◌, Text, [], ◌≡◌, sym, ap, ◌∙◌, Mem, Option, some, ℤ, pos, ◌+ℤ◌, Result,
  ok, bind-ok, ok-injective,
}
use marginpilot.Shared.Events.{UsageEvent}
use marginpilot.External.Machine.{Machine}
use marginpilot.External.Redis.{Redis, IsRedis}
use marginpilot.External.ClickHouse.{Connection}
use marginpilot.External.Postgres.{Table, IsTable}
use marginpilot.Contract.Rating.{PriceResponse}
use marginpilot.Gateway.Domain.{ChatRequest, ChatResponse, Caller}
use marginpilot.Gateway.Port.{Ports}
use marginpilot.Gateway.Service.{proxy}
use marginpilot.Gateway.Service.Traces.{published, recording, recording_machine}
use marginpilot.Rating.Catalog.{Rates}
use marginpilot.Rating.Catalog
use marginpilot.Rating.Catalog.Pricing.{held_rates, rates_of, price-ok}
use marginpilot.Rating.Server.{price}
use marginpilot.Metering.Pricer.{Pricer, grpc_cost}
use marginpilot.Metering.Sink.{Row}
use marginpilot.Metering.Consumer.{handle}
use marginpilot.Metering.Consumer.Accounting.{IsApart}
use marginpilot.System.Charged.{Counted, spent, proxy-charged}

-- The pricer of metering over the rating service.
abbrev pub rated : {W : Type 0} → Table W Rates → Pricer W
rated prices = grpc_cost (price prices)

module _ {W : Type 0} (prices : Table W Rates) {row : W → Text → Option Rates}
    (rows : IsTable prices row) where
  rated-ok :
      (model : Text) (i o ri ro : ℕ) (w : W) (cost : ℤ)
      → held_rates (row w) model ≡ some (rates_of ri ro)
      → i * ri + o * ro < 2 ^ 63
      → (rated prices model (pos i) (pos o) w).0 ≡ ok cost
      → cost ≡ pos ((i * ri + o * ro) / 1_000_000)
  unfolding grpc_cost price
  rated-ok model i o ri ro w cost held fits h =
      let (resp, priced, answer) = bind-ok (price prices _) _ w h in
      let (c, exact, answer') = bind-ok (Catalog.price prices model (pos i) (pos o)) _ w priced in
      sym (ok-injective answer)
      ∙ ap (λ (x : PriceResponse). x.cost_micros) (sym (ok-injective answer'))
      ∙ price-ok prices rows model i o ri ro w c held fits exact

  module _ (sha256_hex : Text → Text) (m : Machine W) (s : Ports W)
      (unmarshal : Text → Result UsageEvent) (ch : Connection W Row) (rdb : Redis W)
      {lookup : W → Text → Option Text} (laws : IsRedis rdb lookup)
      (apart : IsApart (rated prices) ch lookup) where
    abbrev pub spend_of : Caller → UsageEvent → W → ℤ
    spend_of = spent sha256_hex m s unmarshal (rated prices) ch rdb laws apart

    abbrev pub after : Text → W → W
    after payload w = (handle unmarshal (rated prices) ch rdb payload w).1

    -- On a price catalog and a Redis that keep their laws, which the rating service and the sink leave
    -- alone: take a request that the gateway answered, an event that it published on the way, and a
    -- message from which metering decodes this event. When metering, which asks the rating service,
    -- has handled the message with success, the caller's spend in the month of the event has grown by
    -- the exact price of the event's tokens, rounded down to a micro, at the rates that the catalog
    -- then holds for the response's model, or for the default model where it lacks that. The tokens
    -- are those that the provider counted, or none if the response came from the cache; neither count
    -- is negative, and the products fit an `int64`.
    pub proxy-priced :
        (c : Caller) (req : ChatRequest) (resp : ChatResponse) (e : UsageEvent) (payload : Text)
        (w w' : W) (i o ri ro : ℕ)
        → (let out = proxy sha256_hex (recording_machine m) (recording s) c req (w, []) in
            (out.0 ≡ ok resp) × Mem (published e) out.1.1)
        → unmarshal payload ≡ ok e
        → (handle unmarshal (rated prices) ch rdb payload w').0 ≡ ok tt
        → e.input_tokens ≡ pos i
        → e.output_tokens ≡ pos o
        → held_rates (row w') resp.model ≡ some (rates_of ri ro)
        → i * ri + o * ro < 2 ^ 63
        → Counted e resp
          × (spend_of c e (after payload w')
              ≡ spend_of c e w' +ℤ pos ((i * ri + o * ro) / 1_000_000))
    proxy-priced c req resp e payload w w' i o ri ro sent decoded handled input output held fits =
        let (cost, priced, counted, grown) =
          proxy-charged sha256_hex m s unmarshal (rated prices) ch rdb laws apart c req resp e
            payload w w' sent decoded handled in
        let exact =
          rated-ok resp.model i o ri ro w' cost held fits (rw (input, output) at priced) in
        (counted, grown ∙ ap (λ (z : ℤ). spend_of c e w' +ℤ z) exact)
