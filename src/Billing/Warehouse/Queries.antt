-- ===== src/Billing/Warehouse/Queries.antt =====
-- That the two queries agree.
use marginpilot.Base.{
  ℕ, ◌%◌, ◌^◌, Text, text_eq, text_eq_refl, ◌≡◌, refl, sym, ap, ◌∙◌, List, [], ◌∷◌, map, Mem, inl,
  inr, Bool-cases, ℤ, Result, ok, err, bind-ok, ok-injective, text_eq_iff,
}
use marginpilot.External.ClickHouse.{Connection}
use marginpilot.External.Machine.{Machine}
use marginpilot.Metering.Sink.{Row}
use marginpilot.Billing.Cogs.{
  UsageSums, period_int, to_signed, tally, cost_of, by_customer, customer_cost,
}
use marginpilot.Billing.Warehouse.{IsWarehouse, total}

abbrev names_to_sums : (Text → ℕ) → Text → Result (Text × ℕ)
names_to_sums f name = ok (name, f name)

module _ (f : Text → ℕ) (customer : Text) (costs : List (Text × ℤ)) where
  cost_of-kept :
      (names : List Text) (out : List (Text × ℤ))
      → tally out (map (names_to_sums f) names) (ok tt) ≡ ok costs
      → cost_of out customer ≡ to_signed (f customer)
      → cost_of costs customer ≡ to_signed (f customer)
  unfolding tally cost_of
  cost_of-kept [] out h start =
      ap (λ (l : List (Text × ℤ)). cost_of l customer) (sym (ok-injective h)) ∙ start
  cost_of-kept (name ∷ names) out h start =
      cost_of-kept names ((name, to_signed (f name)) ∷ out) h
        (elim (Bool-cases (text_eq name customer)) [
          | inl p ↦ rw p (ap (λ (t : Text). to_signed (f t)) ((text_eq_iff name customer).0 p))
          | inr p ↦ rw p start
        ])

  cost_of-Mem :
      (names : List Text) (out : List (Text × ℤ))
      → tally out (map (names_to_sums f) names) (ok tt) ≡ ok costs
      → Mem customer names
      → cost_of costs customer ≡ to_signed (f customer)
  unfolding tally cost_of
  cost_of-Mem [] out h m = absurd m
  cost_of-Mem (name ∷ names) out h (inl e) =
      cost_of-kept names ((name, to_signed (f name)) ∷ out) h (rw (← e, text_eq_refl customer) refl)
  cost_of-Mem (name ∷ names) out h (inr m) = cost_of-Mem names _ h m

tally-final :
    {costs : List (Text × ℤ)} (out : List (Text × ℤ)) (items : List (Result (Text × ℕ)))
    (final : Result (Unit {0}))
    → tally out items final ≡ ok costs
    → final ≡ ok tt
unfolding tally
tally-final out [] (ok _) h = refl
tally-final out [] (err e) h = cc
tally-final out (ok (name, n) ∷ items) final h =
    tally-final ((name, to_signed n) ∷ out) items final h
tally-final out (err e ∷ items) final h = cc

module _ {W : Type 0} {conn : Connection W Row} (sums : UsageSums W) {rows : W → List Row}
    {filled : W → ℕ → List Row} (stored : IsWarehouse conn sums rows filled) (m : Machine W)
    (tenant customer : Text) (w : W) where
  -- What both queries answer about the customer.
  abbrev answer : ℤ
  answer = to_signed (total tenant customer (period_int (m.now w).0) (rows (m.now w).1) % 2 ^ 64)

  by_customer-answer :
      (costs : List (Text × ℤ))
      → (by_customer sums m tenant w).0 ≡ ok costs
      → cost_of costs customer ≡ answer
  unfolding by_customer cost_of to_signed
  by_customer-answer costs h =
      let p = period_int (m.now w).0 in
      let rs = rows (m.now w).1 in
      let f : Text → ℕ = λ name. total tenant name p rs % 2 ^ 64 in
      let (found, read, rest) = bind-ok (sums.select_tenant tenant p) _ (m.now w).1 h in
      let whole = tally-final [] found.items found.final rest in
      let (names, items, present) = stored.select_tenant-ok tenant p (m.now w).1 found read whole in
      let told : tally [] (map (names_to_sums f) names) (ok tt) ≡ ok costs =
        rw (items, whole) at rest in
      elim (present customer) [
        | inl member ↦ cost_of-Mem f customer costs names [] told member
        | inr absent ↦ cost_of-kept f customer costs names [] told (rw absent refl)
      ]

  -- On a ClickHouse that keeps its laws, the cost of a customer in a tenant's invoice is the cost in
  -- the customer's own invoice, when both are answered from one state at one time: 0 for a customer
  -- with no usage.
  pub by_customer-customer_cost :
      (costs : List (Text × ℤ)) (c : ℤ)
      → (by_customer sums m tenant w).0 ≡ ok costs
      → (customer_cost sums m tenant customer w).0 ≡ ok c
      → cost_of costs customer ≡ c
  unfolding customer_cost
  by_customer-customer_cost costs c h asked =
      let p = period_int (m.now w).0 in
      let (n, read, rest) = bind-ok (sums.select_customer tenant customer p) _ (m.now w).1 asked in
      by_customer-answer costs h
      ∙ ap to_signed (sym (stored.select_customer-ok tenant customer p n (m.now w).1 read))
      ∙ ok-injective rest
