-- ===== src/Binary64/Rounding.antt =====
-- How far a rounded number is from the exact one.
use marginpilot.Base.{ℕ, zero, suc, ◌+◌, ◌*◌, ◌^◌, ◌≤◌, ◌<◌, ◌≡◌, ◌⊎◌, inl, inr, refl, arith}
use native.Mathlib.Nat.{div-add-mod', mod-lt}
use marginpilot.Binary64.{ulp_from, nearest, round_ℕ}

ulp_from-bounds : (fuel u n : ℕ) → (ulp_from fuel u n ≡ u) ⊎ (2 ^ 52 * ulp_from fuel u n ≤ n)
unfolding ulp_from
ulp_from-bounds zero u n = inl refl
ulp_from-bounds (suc fuel) u n = ground (arith, ulp_from-bounds fuel (2 * u) n)

one-le-ulp_from : (fuel u n : ℕ) → 1 ≤ u → 1 ≤ ulp_from fuel u n
unfolding ulp_from
one-le-ulp_from zero u n h = h
one-le-ulp_from (suc fuel) u n h = ground (arith, one-le-ulp_from fuel (2 * u) n)

-- A nearest multiple is at most half the step away.
nearest-bounds : (n u : ℕ) → 1 ≤ u → (2 * nearest n u ≤ 2 * n + u) × (2 * n ≤ 2 * nearest n u + u)
unfolding nearest
nearest-bounds n u h = ground (arith, div-add-mod' n u, mod-lt n h)

nearest-one : (n : ℕ) → nearest n 1 ≡ n
unfolding nearest
nearest-one n = ground arith

-- The relative error of a rounding is at most 2^-53.
pub round_ℕ-bounds :
    (n : ℕ) → (2 ^ 53 * round_ℕ n ≤ 2 ^ 53 * n + n) × (2 ^ 53 * n ≤ 2 ^ 53 * round_ℕ n + n)
unfolding round_ℕ
round_ℕ-bounds n = elim (ulp_from-bounds 128 1 n) [
  | inl e ↦ rw (e, nearest-one) (omega arith)
  | inr e ↦
      omega (arith, nearest-bounds n (ulp_from 128 1 n) (one-le-ulp_from 128 1 n (omega arith)))
]

ulp_from-one : (fuel n : ℕ) → n < 2 ^ 53 → ulp_from fuel 1 n ≡ 1
unfolding ulp_from
ulp_from-one zero n h = refl
ulp_from-one (suc fuel) n h = ground arith

-- A number of at most 53 bits is exact.
pub round_ℕ-small : (n : ℕ) → n < 2 ^ 53 → round_ℕ n ≡ n
unfolding round_ℕ
round_ℕ-small n h = rw (ulp_from-one 128 n h) (nearest-one n)
