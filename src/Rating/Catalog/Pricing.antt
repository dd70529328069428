-- ===== src/Rating/Catalog/Pricing.antt =====
-- The price of a call.
use marginpilot.Base.{
  ℕ, suc, ◌+◌, ◌*◌, ◌/◌, ◌^◌, ◌≤◌, ◌<◌, Text, text_eq, ◌≡◌, inl, inr, refl, sym, ap, ◌∙◌, arith,
  Option, none, some, Bool-cases, ℤ, pos, quot, add64-pos, mul64-pos, some-eq, fun_ext, Proc,
  Result, ok, err, no_rows, bind-ok, ok-injective,
}
use marginpilot.External.Postgres.{Table, IsTable}
use marginpilot.Rating.Catalog.{Rates, default_model, or_default, rates, price, cost}

or_default_last :
    {W : Type 0} (a b : Proc W Rates) (r : Result Rates) (w : W)
    → or_default default_model a r w ≡ or_default default_model b r w
unfolding or_default
or_default_last a b (ok r) w = refl
or_default_last a b (err e) w = refl

-- `rates` calls itself at most once: more fuel than two changes nothing.
rates_two :
    {W : Type 0} (prices : Table W Rates) (more : ℕ) (model : Text) (w : W)
    → rates prices (suc (suc more)) model w ≡ rates prices 2 model w
unfolding rates
rates_two prices more model w =
    ap
      (λ (again : Proc _ Rates).
        or_default model again (prices.query model w).0 (prices.query model w).1)
      (fun_ext (λ w'.
        or_default_last (rates prices more default_model) (rates prices 0 default_model)
          (prices.query default_model w').0 (prices.query default_model w').1))

abbrev pub rates_of : ℕ → ℕ → Rates
rates_of ri ro = record { input = pos ri; output = pos ro }

-- Below the bound of an `int64`, the exact cost in micros, rounded down.
pub exact_cost :
    (i o ri ro : ℕ)
    → i * ri + o * ro < 2 ^ 63
    → cost (rates_of ri ro) (pos i) (pos o) ≡ pos ((i * ri + o * ro) / 1_000_000)
unfolding cost quot
exact_cost i o ri ro h =
    rw (mul64-pos i ri (omega arith), mul64-pos o ro (omega arith), add64-pos (i * ri) (o * ro) h)
      refl

abbrev or_held : Option Rates → Option Rates → Option Rates
or_held (some r) other = some r
or_held none other = other

-- What the catalog holds for a model: its own row, or else the row of the default model.
abbrev pub held_rates : (Text → Option Rates) → Text → Option Rates
held_rates row model = or_held (row model) (row default_model)

module _ {W : Type 0} (prices : Table W Rates) {row : W → Text → Option Rates}
    (laws : IsTable prices row) where
  query_default-ok :
      (out : Result Rates) (w : W) {r : Rates}
      → ((v : Rates) → out ≡ ok v → row w default_model ≡ some v)
      → (or_default default_model (rates prices 0 default_model) out w).0 ≡ ok r
      → row w default_model ≡ some r
  unfolding or_default
  query_default-ok (ok v) w hit h = hit v refl ∙ ap some (ok-injective h)
  query_default-ok (err no_rows) w hit h = cc
  query_default-ok (err _) w hit h = cc

  rates_one-ok :
      (w : W) {r : Rates} → (rates prices 1 default_model w).0 ≡ ok r → row w default_model ≡ some r
  unfolding rates
  rates_one-ok w h =
      sym (laws.row-query default_model default_model w)
      ∙ query_default-ok (prices.query default_model w).0 (prices.query default_model w).1
          (λ v e. laws.row-query default_model default_model w ∙ laws.query-ok default_model v w e)
          h

  query-ok :
      (model : Text) (out : Result Rates) (w w' : W) {r : Rates}
      → ((v : Rates) → out ≡ ok v → row w model ≡ some v)
      → (out ≡ err no_rows → row w model ≡ none)
      → row w' default_model ≡ row w default_model
      → (or_default model (rates prices 1 default_model) out w').0 ≡ ok r
      → held_rates (row w) model ≡ some r
  unfolding or_default
  query-ok model (ok v) w w' hit miss same h = rw (hit v refl) (ap some (ok-injective h))
  query-ok model (err no_rows) w w' hit miss same h =
      elim (Bool-cases (text_eq model default_model)) [
        | inl default ↦ cc (rw default at h)
        | inr other ↦ rw (miss refl) (sym same ∙ rates_one-ok w' (rw other at h))
      ]
  query-ok model (err _) w w' hit miss same h = cc

  rates-ok :
      (model : Text) (w : W) {r : Rates}
      → (rates prices 2 model w).0 ≡ ok r
      → held_rates (row w) model ≡ some r
  unfolding rates
  rates-ok model w h =
      query-ok model (prices.query model w).0 w (prices.query model w).1
        (λ v e. laws.query-ok model v w e) (laws.query-none model w)
        (laws.row-query model default_model w) h

  -- On a table that keeps its laws, the price of a call with token counts and rates that are not
  -- negative, below the bound of an `int64`, is the exact cost by the rates of the model, or of
  -- the default row where the catalog lacks the model, rounded down to a micro.
  pub price-ok :
      (model : Text) (i o ri ro : ℕ) (w : W) (cost : ℤ)
      → held_rates (row w) model ≡ some (record { input = pos ri; output = pos ro })
      → i * ri + o * ro < 2 ^ 63
      → (price prices model (pos i) (pos o) w).0 ≡ ok cost
      → cost ≡ pos ((i * ri + o * ro) / 1_000_000)
  unfolding price
  price-ok model i o ri ro w cost held fits h =
      let (r, read, answer) = bind-ok (rates prices 2 model) _ w h in
      let same : r ≡ record { input = pos ri; output = pos ro } =
        some-eq (sym (rates-ok model w read) ∙ held) in
      sym (ok-injective answer) ∙ rw same (exact_cost i o ri ro fits)

-- Splitting one call into two never costs more, and at most one micro less, in the bounds of an
-- `int64`.
cost_split :
    (i o i' o' ri ro : ℕ)
    → (i + i') * ri + (o + o') * ro < 2 ^ 63
    → (a b c : ℕ) × (cost (rates_of ri ro) (pos i) (pos o) ≡ pos a)
      × (cost (rates_of ri ro) (pos i') (pos o') ≡ pos b)
      × (cost (rates_of ri ro) (pos (i + i')) (pos (o + o')) ≡ pos c)
      × (a + b ≤ c)
      × (c ≤ a + b + 1)
cost_split i o i' o' ri ro h = (
  (i * ri + o * ro) / 1_000_000,
  (i' * ri + o' * ro) / 1_000_000,
  ((i + i') * ri + (o + o') * ro) / 1_000_000,
  exact_cost i o ri ro (omega arith),
  exact_cost i' o' ri ro (omega arith),
  exact_cost (i + i') (o + o') ri ro h,
  omega arith,
  omega arith,
)
