-- ===== src/Base/Decimal.antt =====
-- `fmt`'s %d, zero padding, and `strconv.ParseInt(s, 10, 64)`, which `strconv.Atoi` agrees with.
use Prim.Native.Nat.{ℕ, zero, suc, ◌+◌, ◌-◌, ◌*◌, ◌/◌, ◌%◌, ◌^◌, ◌≤◌, ◌<◌}
use mathlib.Core.Path.{◌≡◌, refl, sym, ap, ◌∙◌}
use mathlib.Core.Logic.{inl, inr}
use mathlib.Core.Bool.{Bool, ◌&&◌}
use mathlib.Core.Option.{Option, none, some}
use mathlib.Core.List.{[], ◌∷◌, ◌++◌}
use native.Mathlib.Nat.{pow-suc}
use native.Mathlib.Omega.{arith}
use marginpilot.Base.Tests.{ltb, leb, ◌==◌, Bool-cases, if◌then◌else◌}
use marginpilot.Base.Lists.{length, All, length-append}
use marginpilot.Base.Int.{ℤ, pos, negsuc, IsInt64, neg}
use marginpilot.Base.Strings.{Text, codes}

-- On fuel above the number, which has fewer digits than its value.
digits : ℕ → ℕ → Text
digits zero n = []
digits (suc fuel) n =
    let rest = digits fuel (n / 10) in
    if ltb n 10 then (b'0' + n) ∷ [] else rest ++ (b'0' + n % 10) ∷ []

unfoldable pub print_ℕ : ℕ → Text
unfolding digits
print_ℕ n = digits (suc n) n

unfoldable pub print_ℤ : ℤ → Text
unfolding print_ℕ
print_ℤ (pos n) = print_ℕ n
print_ℤ (negsuc n) = b'-' ∷ print_ℕ (suc n)

zeros : ℕ → Text
zeros zero = []
zeros (suc n) = b'0' ∷ zeros n

-- Zero padding on the left to a width; a longer number is not cut.
unfoldable pub pad : ℕ → ℕ → Text
unfolding zeros print_ℕ
pad w n = zeros (w - length (print_ℕ n)) ++ print_ℕ n

abbrev is_digit : ℕ → Bool
is_digit c = leb b'0' c && leb c b'9'

scan : ℕ → Text → Option ℕ
scan n [] = some n
scan n (c ∷ s) = if is_digit c then scan (n * 10 + (c - b'0')) s else none

parse_ℕ : Text → Option ℕ
unfolding scan
parse_ℕ [] = none
parse_ℕ (c ∷ s) = scan 0 (c ∷ s)

positive : Option ℕ → Option ℤ
positive none = none
positive (some n) = if ltb n (2 ^ 63) then some (pos n) else none

negative : Option ℕ → Option ℤ
unfolding neg
negative none = none
negative (some n) = if leb n (2 ^ 63) then some (neg n) else none

-- `none` for what is no number and for what an `int64` cannot hold.
unfoldable pub parse_ℤ : Text → Option ℤ
unfolding parse_ℕ positive negative
parse_ℤ [] = none
parse_ℤ (c ∷ s) =
    if c == b'-'
    then negative (parse_ℕ s)
    else if c == b'+'
    then positive (parse_ℕ s)
    else positive (parse_ℕ (c ∷ s))

-- The number that a text of digits stands for.
unfoldable pub value : ℕ → Text → ℕ
value n [] = n
value n (c ∷ s) = value (n * 10 + (c - b'0')) s

abbrev IsDigit : ℕ → Type 0
IsDigit c = (b'0' ≤ c) × (c ≤ b'9')

value-append : (n : ℕ) (s t : Text) → value n (s ++ t) ≡ value (value n s) t
unfolding value
value-append n [] t = refl
value-append n (c ∷ s) t = value-append (n * 10 + (c - b'0')) s t

All-concat : (s : Text) (c : ℕ) → All IsDigit s → IsDigit c → All IsDigit (s ++ c ∷ [])
All-concat [] c _ p = (p, tt)
All-concat (d ∷ s) c (q, h) p = (q, All-concat s c h p)

digits-IsDigit : (fuel n : ℕ) → All IsDigit (digits fuel n)
unfolding digits
digits-IsDigit zero n = tt
digits-IsDigit (suc fuel) n =
    ground (arith, All-concat (digits fuel (n / 10)) (b'0' + n % 10) (digits-IsDigit fuel (n / 10)))

value-digits : (fuel n : ℕ) → n < fuel → value 0 (digits fuel n) ≡ n
unfolding digits value
value-digits zero n h = absurd (omega arith)
value-digits (suc fuel) n h = ground (
  arith,
  value-append 0 (digits fuel (n / 10)) ((b'0' + n % 10) ∷ []),
  value-digits fuel (n / 10),
)

-- The first digit of a printed number, which is no sign.
digits_cons : (fuel n : ℕ) → n < fuel → (c : ℕ) × (s : Text) × (digits fuel n ≡ c ∷ s) × IsDigit c
unfolding digits
digits_cons zero n h = absurd (omega arith)
digits_cons (suc fuel) n h = elim (Bool-cases (ltb n 10)) [
  | inl one ↦ (b'0' + n, [], rw one refl, ground arith)
  | inr more ↦
      let (c, s, e, d) = digits_cons fuel (n / 10) (ground arith) in
      (c, s ++ (b'0' + n % 10) ∷ [], rw (more, e) refl, d)
]

scan-value : (n : ℕ) (s : Text) → All IsDigit s → scan n s ≡ some (value n s)
unfolding scan value
scan-value n [] _ = refl
scan-value n (c ∷ s) (d, h) = ground (arith, scan-value (n * 10 + (c - b'0')) s h)

parse_cons : (t : Text) (c : ℕ) (s : Text) → t ≡ c ∷ s → parse_ℕ (c ∷ s) ≡ scan 0 t
unfolding parse_ℕ
parse_cons t c s e = ap (scan 0) (sym e)

parse_digits :
    (n : ℕ) → (c : ℕ) × (s : Text) × (print_ℕ n ≡ c ∷ s) × IsDigit c × (parse_ℕ (c ∷ s) ≡ some n)
unfolding print_ℕ
parse_digits n =
    let (c, s, e, d) = digits_cons (suc n) n (omega arith) in
    (
      c,
      s,
      e,
      d,
      parse_cons (digits (suc n) n) c s e
          ∙ scan-value 0 (digits (suc n) n) (digits-IsDigit (suc n) n)
          ∙ ap some (value-digits (suc n) n (omega arith)),
    )

-- What `%d` prints of an `int64`, `ParseInt` reads back.
pub parse_ℤ-print_ℤ : (z : ℤ) → IsInt64 z → parse_ℤ (print_ℤ z) ≡ some z
unfolding parse_ℤ print_ℤ
parse_ℤ-print_ℤ (pos n) h = let (c, s, e, d, r) = parse_digits n in rw e (ground arith)
parse_ℤ-print_ℤ (negsuc n) h =
    let (c, s, e, d, r) = parse_digits (suc n) in rw (e, r) (ground arith)

print_ℕ-IsDigit : (n : ℕ) → All IsDigit (print_ℕ n)
unfolding print_ℕ
print_ℕ-IsDigit n = digits-IsDigit (suc n) n

value-zeros : (k : ℕ) (s : Text) → value 0 (zeros k ++ s) ≡ value 0 s
unfolding zeros value
value-zeros zero s = refl
value-zeros (suc k) s = value-zeros k s

-- Padding does not change the number.
pub value-pad : (w n : ℕ) → value 0 (pad w n) ≡ n
unfolding pad print_ℕ
value-pad w n =
    value-zeros (w - length (digits (suc n) n)) (digits (suc n) n)
    ∙ value-digits (suc n) n (omega arith)

length-digits-le : (fuel k n : ℕ) → n < 10 ^ suc k → length (digits fuel n) ≤ suc k
unfolding digits
length-digits-le zero k n h = omega arith
length-digits-le (suc fuel) zero n h = ground arith
length-digits-le (suc fuel) (suc k) n h = ground (
  arith,
  pow-suc 10 (suc k),
  length-append (digits fuel (n / 10)) ((b'0' + n % 10) ∷ []),
  length-digits-le fuel k (n / 10),
)

length-zeros : (k : ℕ) → length (zeros k) ≡ k
unfolding zeros
length-zeros zero = refl
length-zeros (suc k) = ap suc (length-zeros k)

-- A number that fits is padded to the width.
pub length-pad : (k n : ℕ) → n < 10 ^ suc k → length (pad (suc k) n) ≡ suc k
unfolding pad print_ℕ
length-pad k n h = omega (
  arith,
  length-append (zeros (suc k - length (digits (suc n) n))) (digits (suc n) n),
  length-zeros (suc k - length (digits (suc n) n)),
  length-digits-le (suc n) k n h,
)

-- Two digits behind a number.
pub value-two : (a b : Text) → length b ≡ 2 → value 0 (a ++ b) ≡ value 0 a * 100 + value 0 b
unfolding value
value-two a (x ∷ y ∷ []) e = value-append 0 a (x ∷ y ∷ []) ∙ omega arith
value-two a [] e = absurd (omega arith)
value-two a (x ∷ []) e = absurd (omega arith)
value-two a (x ∷ y ∷ z ∷ b) e = absurd (omega arith)

some_min : parse_ℤ (codes "-9223372036854775808") ≡ some (negsuc (2 ^ 63 - 1))
unfolding parse_ℤ scan
some_min = refl

too_large : parse_ℤ (codes "9223372036854775808") ≡ none
unfolding parse_ℤ scan
too_large = refl
