-- ===== src/System/Books.antt =====
-- Metering, budget and billing together: the rows in ClickHouse that an invoice is made of, and the
-- counter in Redis that the budget reads.
use marginpilot.Base.{
  ℕ, ◌+◌, ◌%◌, ◌^◌, Text, ◌≡◌, ap, ◌∙◌, arith, List, ◌∷◌, ◌++◌, ℤ, pos, negsuc, ◌+ℤ◌, wrap64,
  Result, ok, bind-ok, continue,
}
use marginpilot.Shared.Events.{UsageEvent}
use marginpilot.Shared.Spend
use marginpilot.External.Machine.{Machine}
use marginpilot.External.Redis.{Redis}
use marginpilot.External.ClickHouse.{Connection}
use marginpilot.Metering.Pricer.{Pricer}
use marginpilot.Metering.Sink.{Row, row_of, to_unsigned, insert}
use marginpilot.Metering.Consumer.{handle, charge, spend_ttl}
use marginpilot.Billing.Cogs.{UsageSums}
use marginpilot.Billing.Warehouse.{IsWarehouse}

-- The pricer, Redis and the clock leave the rows alone.
pub record IsBeside {W : Type 0} (pricer : Pricer W) (rdb : Redis W) (m : Machine W)
    (rows : W → List Row) : Type 0 where
  pub rows-pricer : (model : Text) (i o : ℤ) (w : W) → rows (pricer model i o w).1 ≡ rows w
  pub rows-incr_by : (k : Text) (n : ℤ) (w : W) → rows (rdb.incr_by k n w).1 ≡ rows w
  pub rows-expire : (k : Text) (ttl : ℕ) (w : W) → rows (rdb.expire k ttl w).1 ≡ rows w
  pub rows-now : (w : W) → rows (m.now w).1 ≡ rows w

-- Sums of unsigned numbers that wrap around are read back as signed ones that do.
pub wrap64-to_unsigned :
    (c z : ℤ) (t : ℕ) → wrap64 (pos (to_unsigned 64 c + t) +ℤ z) ≡ wrap64 (pos t +ℤ (c +ℤ z))
unfolding wrap64 to_unsigned
wrap64-to_unsigned (pos n) (pos k) t = ground arith
wrap64-to_unsigned (pos n) (negsuc k) t = ground arith
wrap64-to_unsigned (negsuc n) (pos k) t = ground arith
wrap64-to_unsigned (negsuc n) (negsuc k) t = ground arith

pub wrap64_mod : (n : ℕ) → wrap64 (pos (n % 2 ^ 64)) ≡ wrap64 (pos n)
unfolding wrap64
wrap64_mod n = ground arith

module _ {W : Type 0} (unmarshal : Text → Result UsageEvent) (pricer : Pricer W)
    (ch : Connection W Row) (rdb : Redis W) (m : Machine W) {sums : UsageSums W}
    {rows : W → List Row} {filled : W → ℕ → List Row} (stored : IsWarehouse ch sums rows filled)
    (beside : IsBeside pricer rdb m rows) where
  rows-insert :
      (e : UsageEvent) (cost : ℤ) (w : W)
      → (insert ch e cost w).0 ≡ ok tt
      → rows (insert ch e cost w).1 ≡ row_of e cost ∷ rows w
  unfolding insert
  rows-insert e cost w h =
      let (b, prepared, h₁) = bind-ok ch.prepare_batch _ w h in
      let w₁ = (ch.prepare_batch w).1 in
      let (u, appended, sent) = bind-ok (ch.append b (row_of e cost)) _ w₁ h₁ in
      rw (prepared, continue, appended, continue)
        (stored.rows-send b _ sent
          ∙ ap (λ (l : List Row). l ++ rows (ch.append b (row_of e cost) w₁).1)
              (stored.filled-append b (row_of e cost) w₁ appended
                ∙ ap (λ (l : List Row). row_of e cost ∷ l) (stored.filled-prepare b w prepared))
          ∙ ap (λ (l : List Row). row_of e cost ∷ l)
              (stored.rows-append b (row_of e cost) w₁ ∙ stored.rows-prepare w))

  -- A message that is handled with success adds the row of its event, with the price it was given.
  pub rows-handle :
      (payload : Text) (e : UsageEvent) (w : W)
      → unmarshal payload ≡ ok e
      → (handle unmarshal pricer ch rdb payload w).0 ≡ ok tt
      → (cost : ℤ) × ((pricer e.model e.input_tokens e.output_tokens w).0 ≡ ok cost)
        × (rows (handle unmarshal pricer ch rdb payload w).1 ≡ row_of e cost ∷ rows w)
  unfolding handle charge
  rows-handle payload e w decoded h =
      let h₀ = rw (decoded, continue) at h in
      let (cost, priced, h₁) = bind-ok (pricer e.model e.input_tokens e.output_tokens) _ w h₀ in
      let w₁ = (pricer e.model e.input_tokens e.output_tokens w).1 in
      let (u, inserted, h₂) = bind-ok (insert ch e cost) _ w₁ h₁ in
      let key = Spend.key e.tenant_id e.customer_id e.occurred_at in
      let (n, counted, h₃) = bind-ok (rdb.incr_by key cost) _ (insert ch e cost w₁).1 h₂ in
      (
        cost,
        priced,
        rw (decoded, continue, priced, continue, inserted, continue, counted, continue)
            (beside.rows-expire key spend_ttl _
              ∙ beside.rows-incr_by key cost _
              ∙ rows-insert e cost w₁ inserted
              ∙ ap (λ (l : List Row). row_of e cost ∷ l) (beside.rows-pricer _ _ _ w)),
      )
