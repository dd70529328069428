-- ===== src/Metering/Consumer/Accounting.antt =====
-- What a metered event adds to the spend counters.
use marginpilot.Base.{
  ℕ, Text, text_eq_refl, text_eq-false, ◌≡◌, ◌≢◌, sym, ap, ◌∙◌, Option, ℤ, ◌+ℤ◌, Result, ok,
  bind-ok, ok-injective, continue, lift,
}
use marginpilot.Shared.Events.{UsageEvent}
use marginpilot.Shared.Spend
use marginpilot.External.Redis.{Redis, IsRedis, counter, counter-print_ℤ}
use marginpilot.External.ClickHouse.{Connection}
use marginpilot.Metering.Pricer.{Pricer}
use marginpilot.Metering.Sink.{Row, insert}
use marginpilot.Metering.Consumer.{handle, charge, spend_ttl}

-- The sink and the pricer leave the spend counters alone.
pub record IsApart {W : Type 0} (pricer : Pricer W) (ch : Connection W Row)
    (lookup : W → Text → Option Text) : Type 0 where
  pub lookup-pricer :
      (model : Text) (i o : ℤ) (k : Text) (w : W) → lookup (pricer model i o w).1 k ≡ lookup w k
  pub lookup-prepare : (k : Text) (w : W) → lookup (ch.prepare_batch w).1 k ≡ lookup w k
  pub lookup-append :
      (b : ℕ) (row : Row) (k : Text) (w : W) → lookup (ch.append b row w).1 k ≡ lookup w k
  pub lookup-send : (b : ℕ) (k : Text) (w : W) → lookup (ch.send b w).1 k ≡ lookup w k

module _ {W : Type 0} (unmarshal : Text → Result UsageEvent) (pricer : Pricer W)
    (ch : Connection W Row) (rdb : Redis W) {lookup : W → Text → Option Text}
    (laws : IsRedis rdb lookup) (apart : IsApart pricer ch lookup) where
  insert-ok :
      (e : UsageEvent) (cost : ℤ) (k : Text) (w : W)
      → (insert ch e cost w).0 ≡ ok tt
      → lookup (insert ch e cost w).1 k ≡ lookup w k
  unfolding insert
  insert-ok e cost k w h =
      let (batch, prepared, h₁) = bind-ok ch.prepare_batch _ w h in
      let (u, filled, h₂) = bind-ok (ch.append batch _) _ _ h₁ in
      rw (prepared, continue, filled, continue)
        (apart.lookup-send batch k _ ∙ apart.lookup-append batch _ k _ ∙ apart.lookup-prepare k w)

  -- The customer's spend as the counter of a month holds it.
  abbrev pub held : UsageEvent → W → ℤ
  held e w = counter (lookup w (Spend.key e.tenant_id e.customer_id e.occurred_at))

  -- A charge that succeeds has priced the event, and has added the price to the counter of its
  -- customer and month, and to no other key.
  charge-ok :
      (e : UsageEvent) (w : W)
      → (charge unmarshal pricer ch rdb e w).0 ≡ ok tt
      → (cost : ℤ) × ((pricer e.model e.input_tokens e.output_tokens w).0 ≡ ok cost)
        × (held e (charge unmarshal pricer ch rdb e w).1 ≡ held e w +ℤ cost)
        × ((k : Text)
            → Spend.key e.tenant_id e.customer_id e.occurred_at ≢ k
            → lookup (charge unmarshal pricer ch rdb e w).1 k ≡ lookup w k)
  unfolding charge
  charge-ok e w h =
      let key = Spend.key e.tenant_id e.customer_id e.occurred_at in
      let (cost, priced, h₁) = bind-ok (pricer e.model e.input_tokens e.output_tokens) _ w h in
      let w₁ = (pricer e.model e.input_tokens e.output_tokens w).1 in
      let (u, inserted, h₂) = bind-ok (insert ch e cost) _ w₁ h₁ in
      let w₂ = (insert ch e cost w₁).1 in
      let (total, counted, h₃) = bind-ok (rdb.incr_by key cost) _ w₂ h₂ in
      let (sum, fits) = laws.incr_by-ok key cost total w₂ counted in
      let before = λ (k : Text). insert-ok e cost k w₁ inserted ∙ apart.lookup-pricer _ _ _ k w in
      let made = rw text_eq_refl at (laws.lookup-incr_by key cost total key w₂ counted) in
      (
        cost,
        priced,
        rw (priced, continue, inserted, continue, counted, continue)
            (ap counter (laws.lookup-expire key spend_ttl key _ ∙ made)
              ∙ counter-print_ℤ total fits
              ∙ sum
              ∙ ap (λ (o : Option Text). counter o +ℤ cost) (before key)),
        (λ k other.
            rw (priced, continue, inserted, continue, counted, continue)
              (laws.lookup-expire key spend_ttl k _
                ∙ rw (text_eq-false key k other) at
                    (laws.lookup-incr_by key cost total k w₂ counted)
                ∙ before k)),
      )

  -- On a Redis that keeps its laws, which pricer and sink leave alone: an event that is handled
  -- with success was decoded and priced, and its price was added to the counter of its customer
  -- and month, and to no other key.
  pub handle-ok :
      (payload : Text) (w : W)
      → (handle unmarshal pricer ch rdb payload w).0 ≡ ok tt
      → (e : UsageEvent) × (cost : ℤ) × (unmarshal payload ≡ ok e)
        × ((pricer e.model e.input_tokens e.output_tokens w).0 ≡ ok cost)
        × (held e (handle unmarshal pricer ch rdb payload w).1 ≡ held e w +ℤ cost)
        × ((k : Text)
            → Spend.key e.tenant_id e.customer_id e.occurred_at ≢ k
            → lookup (handle unmarshal pricer ch rdb payload w).1 k ≡ lookup w k)
  unfolding handle
  handle-ok payload w h =
      let (e, decoded, rest) = bind-ok (lift (unmarshal payload)) _ w h in
      let (cost, priced, added, others) = charge-ok e w rest in
      (
        e,
        cost,
        decoded,
        priced,
        rw (decoded, continue) added,
        λ k other. rw (decoded, continue) (others k other),
      )

  -- On a Redis that keeps its laws, which pricer and sink leave alone: a message that is
  -- delivered twice, and both times handled with success, is charged twice. The counter grows by
  -- both prices, though it is one event with one event id.
  pub handle_twice :
      (payload : Text) (w : W)
      → (handle unmarshal pricer ch rdb payload w).0 ≡ ok tt
      → let w' = (handle unmarshal pricer ch rdb payload w).1 in
        (handle unmarshal pricer ch rdb payload w').0 ≡ ok tt
        → (e : UsageEvent) × (cost cost' : ℤ) × (unmarshal payload ≡ ok e)
          × ((pricer e.model e.input_tokens e.output_tokens w).0 ≡ ok cost)
          × ((pricer e.model e.input_tokens e.output_tokens w').0 ≡ ok cost')
          × (held e (handle unmarshal pricer ch rdb payload w').1 ≡ held e w +ℤ cost +ℤ cost')
  handle_twice payload w h h' =
      let (e, cost, decoded, priced, added, _) = handle-ok payload w h in
      let (e', cost', decoded', priced', added', _) = handle-ok payload _ h' in
      let same : e' ≡ e = ok-injective (sym decoded' ∙ decoded) in
      (
        e,
        cost,
        cost',
        decoded,
        priced,
        rw same at priced',
        rw same at added' ∙ ap (λ (z : ℤ). z +ℤ cost') added,
      )
