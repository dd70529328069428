-- ===== src/Metering/Pricing/Agreement.antt =====
-- The built-in price table and the rating service agree.
use marginpilot.Base.{
  ℕ, zero, suc, Bool, true, leb, ◌&&◌, ◌+◌, ◌*◌, ◌/◌, ◌^◌, ◌≤◌, ◌<◌, ◌≡◌, refl, arith, Text, codes,
  text_eq, Option, some, Bool-cases, inl, inr, lt→ltb, ℤ, pos, pos-*ℤ, pos-+ℤ, quot,
}
use marginpilot.Binary64.{round_ℕ, round_ℤ, scale, sum, to_int64}
use marginpilot.Binary64.Rounding.{round_ℕ-bounds, round_ℕ-small}
use marginpilot.Rating.Catalog.{Rates, cost, seed_rows}
use marginpilot.Rating.Catalog.Pricing.{rates_of, exact_cost, held_rates}
use marginpilot.Rating.Catalog.Seeding.{first_row}
use marginpilot.Metering.Pricing.{
  TokenPrice, catalog, fallback, token_price, charge_of, builtin_cost,
}

abbrev price_of : ℕ → ℕ → TokenPrice
price_of zi zo = record { input = pos zi; output = pos zo }

-- The integer that counts the sum with its half.
abbrev summed : ℕ → ℕ → ℕ
summed a b = round_ℕ (round_ℕ (round_ℕ a + round_ℕ b) + 2 ^ 55)

scale-pos : (n x : ℕ) → n < 2 ^ 53 → scale (pos n) (pos x) ≡ pos (round_ℕ (n * x))
unfolding scale round_ℤ
scale-pos n x h = rw (round_ℕ-small n h, pos-*ℤ) refl

sum-pos : (a b : ℕ) → sum (pos a) (pos b) ≡ pos (round_ℕ (a + b))
unfolding sum round_ℤ
sum-pos a b = rw (pos-+ℤ) refl

to_int64-pos :
    (out_of_range : ℤ → ℤ) (n : ℕ) → n < 2 ^ 119 → to_int64 out_of_range (pos n) ≡ pos (n / 2 ^ 56)
unfolding to_int64 quot
to_int64-pos out_of_range n h = rw (lt→ltb (n / 2 ^ 56) (2 ^ 63) (omega arith)) refl

charge_of-pos :
    (out_of_range : ℤ → ℤ) (zi zo i o : ℕ)
    → i < 2 ^ 53
    → o < 2 ^ 53
    → summed (i * zi) (o * zo) < 2 ^ 119
    → charge_of out_of_range (price_of zi zo) (pos i) (pos o)
      ≡ pos (summed (i * zi) (o * zo) / 2 ^ 56)
unfolding charge_of
charge_of-pos out_of_range zi zo i o hi ho fits =
    rw (scale-pos i zi hi, scale-pos o zo ho, sum-pos, sum-pos)
      (to_int64-pos out_of_range (summed (i * zi) (o * zo)) fits)

-- With `a` and `b` the exact products, near `p` and `q` millionths: the rounded sum is within one of
-- the quotient.
summed-bounds :
    (a b p q : ℕ)
    → a ≤ 2 ^ 100
    → b ≤ 2 ^ 100
    → 10 ^ 6 * a ≤ 2 ^ 56 * p + 2 ^ 65
    → 2 ^ 56 * p ≤ 10 ^ 6 * a + 2 ^ 65
    → 10 ^ 6 * b ≤ 2 ^ 56 * q + 2 ^ 65
    → 2 ^ 56 * q ≤ 10 ^ 6 * b + 2 ^ 65
    → ((p + q) / 10 ^ 6 ≤ summed a b / 2 ^ 56)
      × (summed a b / 2 ^ 56 ≤ (p + q) / 10 ^ 6 + 1)
      × (summed a b < 2 ^ 119)
summed-bounds a b p q ha hb h1 h2 h3 h4 = omega (
  arith,
  round_ℕ-bounds a,
  round_ℕ-bounds b,
  round_ℕ-bounds (round_ℕ a + round_ℕ b),
  round_ℕ-bounds (round_ℕ (round_ℕ a + round_ℕ b) + 2 ^ 55),
)

-- The two prices of one call.
abbrev Agree : ℤ → ℤ → Type 0
Agree builtin rated = (c r : ℕ) × (builtin ≡ pos c) × (rated ≡ pos r) × (r ≤ c) × (c ≤ r + 1)

mul_mono : (n a b : ℕ) → a ≤ b → n * a ≤ n * b
mul_mono zero a b h = omega arith
mul_mono (suc n) a b h = omega (arith, h, mul_mono n a b h)

-- A price in multiples of 2^-56 that is the rate, in millionths, but for rounding.
abbrev is_near : ℕ → ℕ → Bool
is_near z r =
    leb z (2 ^ 60)
    && leb (10 ^ 6 * z) (2 ^ 56 * r + 2 ^ 26)
    && leb (2 ^ 56 * r) (10 ^ 6 * z + 2 ^ 26)

near-mul :
    (i z r : ℕ)
    → i < 2 ^ 39
    → is_near z r ≡ true
    → (i * z ≤ 2 ^ 100)
      × (10 ^ 6 * (i * z) ≤ 2 ^ 56 * (i * r) + 2 ^ 65)
      × (2 ^ 56 * (i * r) ≤ 10 ^ 6 * (i * z) + 2 ^ 65)
near-mul i z r hi near =
    let bounds : (z ≤ 2 ^ 60)
        × (10 ^ 6 * z ≤ 2 ^ 56 * r + 2 ^ 26)
        × (2 ^ 56 * r ≤ 10 ^ 6 * z + 2 ^ 26) =
      ground (arith, near) in
    (
      omega (arith, mul_mono i z (2 ^ 60) bounds.0),
      omega (arith, mul_mono i (10 ^ 6 * z) (2 ^ 56 * r + 2 ^ 26) bounds.1),
      omega (arith, mul_mono i (2 ^ 56 * r) (10 ^ 6 * z + 2 ^ 26) bounds.2),
    )

agree :
    (out_of_range : ℤ → ℤ) (zi zo ri ro i o : ℕ)
    → i < 2 ^ 39
    → o < 2 ^ 39
    → (is_near zi ri && is_near zo ro && leb (ri + ro) (2 ^ 24)) ≡ true
    → Agree
        (charge_of out_of_range (price_of zi zo) (pos i) (pos o))
        (cost (rates_of ri ro) (pos i) (pos o))
agree out_of_range zi zo ri ro i o hi ho near =
    let (ha, h1, h2) = near-mul i zi ri hi (ground (arith, near)) in
    let (hb, h3, h4) = near-mul o zo ro ho (ground (arith, near)) in
    let rates : ri + ro ≤ 2 ^ 24 = ground (arith, near) in
    let (low, high, small) = summed-bounds (i * zi) (o * zo) (i * ri) (o * ro) ha hb h1 h2 h3 h4 in
    (
      summed (i * zi) (o * zo) / 2 ^ 56,
      (i * ri + o * ro) / 10 ^ 6,
      charge_of-pos out_of_range zi zo i o (omega arith) (omega arith) small,
      exact_cost i o ri ro (
          grind (
            arith,
            mul_mono ri i (2 ^ 39) (omega arith),
            mul_mono ro o (2 ^ 39) (omega arith),
            rates,
          )),
      low,
      high,
    )

-- The rates that the catalog holds for a model after its seeding on an empty table.
abbrev pub seeded_rates : Text → Option Rates
seeded_rates model = held_rates (λ name. first_row name seed_rows) model

-- For token counts below 2^39 the built-in table charges the price of the seeded rating service or
-- one micro more, for every model, though it computes in floating point and rounds to the nearest
-- micro where rating drops the fraction.
pub builtin_cost-agrees :
    (out_of_range : ℤ → ℤ) (model : Text) (i o : ℕ)
    → i < 2 ^ 39
    → o < 2 ^ 39
    → (r : Rates) × (seeded_rates model ≡ some r)
      × Agree (builtin_cost out_of_range model (pos i) (pos o)) (cost r (pos i) (pos o))
unfolding builtin_cost catalog token_price fallback first_row seed_rows
builtin_cost-agrees f model i o hi ho = elim (Bool-cases (text_eq (codes "gpt-4o-mini") model)) [
  | inl e ↦ rw e (_, refl, agree f _ _ 150_000 600_000 i o hi ho refl)
  | inr e1 ↦ elim (Bool-cases (text_eq (codes "gpt-4o") model)) [
    | inl e ↦ rw (e1, e) (_, refl, agree f _ _ 2_500_000 10_000_000 i o hi ho refl)
    | inr e2 ↦ elim (Bool-cases (text_eq (codes "claude-haiku-4-5") model)) [
      | inl e ↦ rw (e1, e2, e) (_, refl, agree f _ _ 800_000 4_000_000 i o hi ho refl)
      | inr e3 ↦ elim (Bool-cases (text_eq (codes "echo-1") model)) [
        | inl e ↦ rw (e1, e2, e3, e) (_, refl, agree f _ _ 100_000 100_000 i o hi ho refl)
        | inr e4 ↦
            rw (e1, e2, e3, e4)
              (elim (Bool-cases (text_eq (codes "default") model)) [
                | inl e ↦ rw e (_, refl, agree f _ _ 1_000_000 3_000_000 i o hi ho refl)
                | inr e5 ↦ rw e5 (_, refl, agree f _ _ 1_000_000 3_000_000 i o hi ho refl)
              ])
      ]
    ]
  ]
]
