-- ===== src/System/Invoices.antt =====
-- What an invoice charges, against what was metered and what the budget counts.
use marginpilot.Base.{
  ℕ, ◌%◌, ◌^◌, ◌==◌, ==_iff, ◌<◌, Text, text_eq, text_eq_iff, Lacks, ◌≡◌, ◌↔◌, refl, sym, ap, ◌∙◌,
  arith, List, [], ◌∷◌, All, Option, Bool, ◌&&◌, Bool-cases, inl, inr, if◌then◌else◌, ℤ, pos, ◌+ℤ◌,
  +ℤ_zero, +ℤ_assoc, +ℤ-left_comm, wrap64, Result, Error, ok, err, bind-ok, ok-injective,
}
use mathlib.Core.List.{foldr}
use marginpilot.Shared.Calendar.{Time, year, month, month_bounds}
use marginpilot.Shared.Events.{UsageEvent}
use marginpilot.Shared.Spend
use marginpilot.Shared.Spend.Keys.{key_iff}
use marginpilot.External.Machine.{Machine}
use marginpilot.External.Redis.{Redis, IsRedis}
use marginpilot.External.ClickHouse.{Connection}
use marginpilot.Metering.Pricer.{Pricer}
use marginpilot.Metering.Sink.{Row, row_of}
use marginpilot.Metering.Consumer.{handle}
use marginpilot.Metering.Consumer.Accounting.{IsApart}
use marginpilot.Billing.Cogs.{UsageSums, period_int, to_signed, customer_cost}
use marginpilot.Billing.Warehouse.{IsWarehouse, is_counted, total}
use marginpilot.System.Ledger.{key_of, charged, HasPrice, History, counter-History}
use marginpilot.System.Ledger
use marginpilot.System.Books.{IsBeside, wrap64-to_unsigned, wrap64_mod, rows-handle}

-- An event of the customer in the month.
abbrev pub is_billed : Text → Text → ℕ → UsageEvent → Bool
is_billed tenant customer p e =
    text_eq e.tenant_id tenant && (text_eq e.customer_id customer && period_int e.occurred_at == p)

-- The prices of the customer's events of the month.
abbrev pub billed : (UsageEvent → ℤ) → Text → Text → ℕ → List UsageEvent → ℤ
billed price tenant customer p es =
    foldr (λ (e : UsageEvent) (t : ℤ). if is_billed tenant customer p e then price e +ℤ t else t)
      (pos 0) es

total_row :
    (tenant customer : Text) (p : ℕ) (e : UsageEvent) (cost z : ℤ) (rs : List Row)
    → wrap64 (pos (total tenant customer p (row_of e cost ∷ rs)) +ℤ z)
      ≡ wrap64 (
          pos (total tenant customer p rs)
          +ℤ (if is_billed tenant customer p e then cost +ℤ z else z))
unfolding total is_counted row_of
total_row tenant customer p e cost z rs = elim (Bool-cases (is_billed tenant customer p e)) [
  | inl h ↦ rw h (wrap64-to_unsigned cost z (total tenant customer p rs))
  | inr h ↦ rw h refl
]

period_int_iff :
    (t u : Time)
    → year t < 10000
    → year u < 10000
    → (period_int t ≡ period_int u) ↔ ((year t ≡ year u) × (month t ≡ month u))
unfolding period_int
period_int_iff t u ht hu =
    let (a, b) = month_bounds t in let (c, d) = month_bounds u in ground (arith, a, b, c, d)

-- An event whose tenant has no colon, in a year of four digits.
abbrev pub IsPlain : UsageEvent → Type 0
IsPlain e = Lacks b':' e.tenant_id × (year e.occurred_at < 10000)

is_billed-key :
    (tenant customer : Text) (u : Time) (e : UsageEvent)
    → Lacks b':' tenant
    → year u < 10000
    → IsPlain e
    → text_eq (key_of e) (Spend.key tenant customer u) ≡ is_billed tenant customer (period_int u) e
is_billed-key tenant customer u e plain years (plain_e, years_e) = ground (
  arith,
  text_eq_iff (key_of e) (Spend.key tenant customer u),
  key_iff e.tenant_id tenant e.customer_id customer e.occurred_at u plain_e plain years_e years,
  text_eq_iff e.tenant_id tenant,
  text_eq_iff e.customer_id customer,
  ==_iff (period_int e.occurred_at) (period_int u),
  period_int_iff e.occurred_at u years_e years,
)

pub charged-billed :
    (price : UsageEvent → ℤ) (tenant customer : Text) (u : Time) (es : List UsageEvent)
    → Lacks b':' tenant
    → year u < 10000
    → All IsPlain es
    → charged price (Spend.key tenant customer u) es
      ≡ billed price tenant customer (period_int u) es
charged-billed price tenant customer u [] plain years h = refl
charged-billed price tenant customer u (e ∷ es) plain years (h, hs) =
    rw
      (
        is_billed-key tenant customer u e plain years h,
        charged-billed price tenant customer u es plain years hs,
      )
      refl

-- An event more in one part of a list is one more in the whole.
shared_left :
    (price : UsageEvent → ℤ) (k : Text) (e : UsageEvent) (cs us es : List UsageEvent)
    → charged price k cs +ℤ charged price k us ≡ charged price k es
    → charged price k (e ∷ cs) +ℤ charged price k us ≡ charged price k (e ∷ es)
shared_left price k e cs us es h = elim (Bool-cases (text_eq (key_of e) k)) [
  | inl p ↦ rw (p, sym h) (+ℤ_assoc (price e) (charged price k cs) (charged price k us))
  | inr p ↦ rw p h
]

shared_right :
    (price : UsageEvent → ℤ) (k : Text) (e : UsageEvent) (cs us es : List UsageEvent)
    → charged price k cs +ℤ charged price k us ≡ charged price k es
    → charged price k cs +ℤ charged price k (e ∷ us) ≡ charged price k (e ∷ es)
shared_right price k e cs us es h = elim (Bool-cases (text_eq (key_of e) k)) [
  | inl p ↦ rw (p, sym h) (+ℤ-left_comm (charged price k cs) (price e) (charged price k us))
  | inr p ↦ rw p h
]

module _ {W : Type 0} (unmarshal : Text → Result UsageEvent) (pricer : Pricer W)
    (ch : Connection W Row) (rdb : Redis W) (m : Machine W) {sums : UsageSums W}
    {rows : W → List Row} {filled : W → ℕ → List Row} {lookup : W → Text → Option Text}
    (stored : IsWarehouse ch sums rows filled) (beside : IsBeside pricer rdb m rows)
    (laws : IsRedis rdb lookup) (apart : IsApart pricer ch lookup) (price : UsageEvent → ℤ)
    (tenant customer : Text) (k : Text) where
  -- A history from one world to another: the events whose rows metering stored, in order, and those
  -- of them that it did not count. A message that is handled with success does both; one whose
  -- handling failed may have stored its row and not touched the counter `k`; between them is anything
  -- that leaves the rows and the counter alone, other failures included.
  pub data Booked : W → List UsageEvent → List UsageEvent → W → Type 0 where
    done : (w : W) → Booked w [] [] w
    metered :
        (payload : Text) (e : UsageEvent) (es us : List UsageEvent) (w w' : W)
        → unmarshal payload ≡ ok e
        → (handle unmarshal pricer ch rdb payload w).0 ≡ ok tt
        → Booked (handle unmarshal pricer ch rdb payload w).1 es us w'
        → Booked w (e ∷ es) us w'
    uncounted :
        (payload : Text) (e : UsageEvent) (x : Error) (es us : List UsageEvent) (w w' : W)
        → unmarshal payload ≡ ok e
        → (handle unmarshal pricer ch rdb payload w).0 ≡ err x
        → rows (handle unmarshal pricer ch rdb payload w).1 ≡ row_of e (price e) ∷ rows w
        → lookup (handle unmarshal pricer ch rdb payload w).1 k ≡ lookup w k
        → Booked (handle unmarshal pricer ch rdb payload w).1 es us w'
        → Booked w (e ∷ es) (e ∷ us) w'
    meanwhile :
        (f : W → W) (es us : List UsageEvent) (w w' : W)
        → rows (f w) ≡ rows w
        → lookup (f w) k ≡ lookup w k
        → Booked (f w) es us w'
        → Booked w es us w'

  -- The part of it that the counter sees, and that nothing else is missing.
  pub counted :
      (w w' : W) (es us : List UsageEvent)
      → Booked w es us w'
      → (cs : List UsageEvent) × History unmarshal pricer ch rdb laws apart price k w cs w'
        × (charged price k cs +ℤ charged price k us ≡ charged price k es)
  counted w w' es us (done _) = ([], Ledger.done w, refl)
  counted w w' es us (metered payload e rest _ _ _ decoded handled later) =
      let (cs, history, split) = counted _ w' rest us later in
      (
        e ∷ cs,
        Ledger.metered payload e cs w w' decoded handled history,
        shared_left price k e cs us rest split,
      )
  counted w w' es us (uncounted payload e x rest missed _ _ decoded failed added kept later) =
      let (cs, history, split) = counted _ w' rest missed later in
      (
        cs,
        Ledger.meanwhile (λ v. (handle unmarshal pricer ch rdb payload v).1) cs w w' kept history,
        shared_right price k e cs missed rest split,
      )
  counted w w' es us (meanwhile f _ _ _ _ kept same later) =
      let (cs, history, split) = counted (f w) w' es us later in
      (cs, Ledger.meanwhile f cs w w' same history, split)

  total-Booked :
      (p : ℕ) (w w' : W) (es us : List UsageEvent)
      → HasPrice pricer price
      → Booked w es us w'
      → wrap64 (pos (total tenant customer p (rows w')))
        ≡ wrap64 (pos (total tenant customer p (rows w)) +ℤ billed price tenant customer p es)
  total-Booked p w w' es us priced (done _) =
      ap wrap64 (sym (+ℤ_zero (pos (total tenant customer p (rows w)))))
  total-Booked p w w' es us priced (metered payload e rest _ _ _ decoded handled later) =
      let (cost, asked, added) =
        rows-handle unmarshal pricer ch rdb m stored beside payload e w decoded handled in
      total-Booked p _ w' rest us priced later
      ∙ ap
          (λ (l : List Row).
            wrap64 (pos (total tenant customer p l) +ℤ billed price tenant customer p rest))
          added
      ∙ total_row tenant customer p e cost (billed price tenant customer p rest) (rows w)
      ∙ ap
          (λ (c : ℤ). wrap64 (
            pos (total tenant customer p (rows w))
            +ℤ (if is_billed tenant customer p e
                then c +ℤ billed price tenant customer p rest
                else billed price tenant customer p rest)))
          (priced e w cost asked)
  total-Booked p w w' es us priced
        (uncounted payload e x rest missed _ _ decoded failed added kept later) =
      total-Booked p _ w' rest missed priced later
      ∙ ap
          (λ (l : List Row).
            wrap64 (pos (total tenant customer p l) +ℤ billed price tenant customer p rest))
          added
      ∙ total_row tenant customer p e (price e) (billed price tenant customer p rest) (rows w)
  total-Booked p w w' es us priced (meanwhile f _ _ _ _ kept same later) =
      total-Booked p (f w) w' es us priced later
      ∙ ap
          (λ (l : List Row).
            wrap64 (pos (total tenant customer p l) +ℤ billed price tenant customer p es))
          kept

  customer_cost-total :
      (w : W) (c : ℤ)
      → (customer_cost sums m tenant customer w).0 ≡ ok c
      → c ≡ wrap64 (pos (total tenant customer (period_int (m.now w).0) (rows w)))
  unfolding customer_cost to_signed
  customer_cost-total w c h =
      let p = period_int (m.now w).0 in
      let (n, read, answer) = bind-ok (sums.select_customer tenant customer p) _ (m.now w).1 h in
      sym (ok-injective answer)
      ∙ ap (λ (x : ℕ). wrap64 (pos x))
          (stored.select_customer-ok tenant customer p n (m.now w).1 read
            ∙ ap (λ (l : List Row). total tenant customer p l % 2 ^ 64) (beside.rows-now w))
      ∙ wrap64_mod (total tenant customer p (rows w))

  -- On a ClickHouse and a Redis that keep their laws, beside a pricer that has a price for each event:
  -- after any history of metering, in which some messages may have failed after their row was stored,
  -- the cost of a customer that billing answers, in whatever month it asks, is what the rows held
  -- before and the prices of the customer's events of that month, wrapped into an `int64`. Costs and
  -- sums that are negative or too large wrap around on the way without harm.
  pub customer_cost-Booked :
      (w w' : W) (es us : List UsageEvent) (c : ℤ)
      → HasPrice pricer price
      → Booked w es us w'
      → (customer_cost sums m tenant customer w').0 ≡ ok c
      → let p = period_int (m.now w').0 in
        c ≡ wrap64 (pos (total tenant customer p (rows w)) +ℤ billed price tenant customer p es)
  customer_cost-Booked w w' es us c priced history asked =
      customer_cost-total w' c asked
      ∙ total-Booked (period_int (m.now w').0) w w' es us priced history
