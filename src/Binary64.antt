-- ===== src/Binary64.antt =====
-- Go's `float64`, as far as the built-in price table of metering uses it: values that are multiples
-- of 2^-56, each as the integer that counts them. Every operation rounds its exact result to 53
-- significant bits, to the nearest value and in a tie to the even one; none is fused with another.
pub mod Rounding
use marginpilot.Base.{
  ℕ, zero, suc, ◌+◌, ◌*◌, ◌/◌, ◌%◌, ◌^◌, ltb, leb, ◌==◌, if◌then◌else◌, ℤ, pos, negsuc, ◌+ℤ◌, ◌*ℤ◌,
  neg, quot, Bool, true, false,
}

-- The least power of two times `u` in which the number has at most 53 bits, on fuel for doublings.
unfoldable pub ulp_from : ℕ → ℕ → ℕ → ℕ
ulp_from zero u n = u
ulp_from (suc fuel) u n =
    let coarser = ulp_from fuel (2 * u) n in if ltb n (2 ^ 53 * u) then u else coarser

-- The multiple of `u` nearest to a number.
unfoldable pub nearest : ℕ → ℕ → ℕ
nearest n u =
    if ltb (2 * (n % u)) u
    then n / u * u
    else if ltb u (2 * (n % u))
    then (n / u + 1) * u
    else if n / u % 2 == 0
    then n / u * u
    else (n / u + 1) * u

-- A number with its 53 leading bits, rounded; 128 doublings are enough below 2^181.
unfoldable pub round_ℕ : ℕ → ℕ
round_ℕ n = nearest n (ulp_from 128 1 n)

unfoldable pub round_ℤ : ℤ → ℤ
round_ℤ (pos n) = pos (round_ℕ n)
round_ℤ (negsuc n) = neg (round_ℕ (suc n))

-- `float64(n) * x` of an integer `n`, which is rounded first
unfoldable pub scale : ℤ → ℤ → ℤ
scale n x = round_ℤ (round_ℤ n *ℤ x)

-- `x + y`
unfoldable pub sum : ℤ → ℤ → ℤ
sum x y = round_ℤ (x +ℤ y)

abbrev fits_int64 : ℤ → Bool
fits_int64 (pos n) = ltb n (2 ^ 63)
fits_int64 (negsuc n) = ltb n (2 ^ 63)

-- `int64(x)`, which drops the fraction; out of range, Go leaves the result to the platform
unfoldable pub to_int64 : (ℤ → ℤ) → ℤ → ℤ
to_int64 out_of_range x = let z = quot x (2 ^ 56) in if fits_int64 z then z else out_of_range x
