-- ===== src/Base/Strings.antt =====
-- Go strings, as sequences of Unicode code points, and the functions of the package `strings`
-- that the program calls. Every string of the program comes from JSON, protobuf, environment
-- variables or headers and is taken to be valid UTF-8.
use Prim.Native.Nat.{ℕ, ◌+◌}
use Prim.Native.Char.{code}
use Prim.Native.String.{String}
use mathlib.Core.Path.{◌≡◌, refl, sym, ap}
use mathlib.Core.Logic.{◌↔◌, ◌≢◌}
use mathlib.Core.Bool.{Bool, true, false, ◌&&◌, ◌||◌}
use mathlib.Core.Option.{Option, none, some}
use mathlib.Core.List.{List, [], ◌∷◌, ◌++◌}
use native.Mathlib.Omega.{arith}
use marginpilot.Base.Tests.{◌==◌, ==_iff, leb, if◌then◌else◌}
use marginpilot.Base.Lists.{length, length-append}

abbrev pub Text : Type 0
Text = List ℕ

-- The code points of a literal.
abbrev pub codes : String → Text
codes String.[] = []
codes (String.◌∷◌ c s) = code c ∷ codes s

abbrev pub text_eq : Text → Text → Bool
text_eq [] [] = true
text_eq (x ∷ xs) (y ∷ ys) = x == y && text_eq xs ys
text_eq _ _ = false

pub text_eq_iff : (s t : Text) → (text_eq s t ≡ true) ↔ (s ≡ t)
text_eq_iff [] [] = ground arith
text_eq_iff (x ∷ xs) [] = ground arith
text_eq_iff [] (y ∷ ys) = ground arith
text_eq_iff (x ∷ xs) (y ∷ ys) = ground (arith, ==_iff x y, text_eq_iff xs ys)

pub text_eq_refl : (s : Text) → text_eq s s ≡ true
text_eq_refl s = (text_eq_iff s s).1 refl

abbrev pub is_empty : Text → Bool
is_empty [] = true
is_empty (_ ∷ _) = false

-- `unicode.IsSpace`
unfoldable pub is_space : ℕ → Bool
is_space c =
    (leb 9 c && leb c 13)
    || c == 0x20
    || c == 0x85
    || c == 0xa0
    || c == 0x1680
    || (leb 0x2000 c && leb c 0x200a)
    || c == 0x2028
    || c == 0x2029
    || c == 0x202f
    || c == 0x205f
    || c == 0x3000

unfoldable pub trim_left : Text → Text
trim_left [] = []
trim_left (c ∷ s) = if is_space c then trim_left s else c ∷ s

unfoldable pub trim_right : Text → Text
trim_right [] = []
trim_right (c ∷ s) = let rest = trim_right s in if is_space c && is_empty rest then [] else c ∷ rest

-- `strings.TrimSpace`
unfoldable pub trim_space : Text → Text
unfolding trim_left trim_right is_space
trim_space s = trim_right (trim_left s)

-- `strings.HasPrefix(s, p)` with what follows the prefix, `s[len(p):]`.
unfoldable pub strip_prefix : Text → Text → Option Text
strip_prefix [] s = some s
strip_prefix (c ∷ p) [] = none
strip_prefix (c ∷ p) (d ∷ s) = if c == d then strip_prefix p s else none

-- The text has no character `c`.
abbrev pub Lacks : ℕ → Text → Type 0
Lacks c [] = Unit
Lacks c (d ∷ s) = (d ≢ c) × Lacks c s

-- A separator that neither head has splits a text in one way.
pub split_at :
    (c : ℕ) (a b r s : Text) → Lacks c a → Lacks c b → a ++ c ∷ r ≡ b ++ c ∷ s → (a ≡ b) × (r ≡ s)
split_at c [] [] r s ha hb e = ground arith
split_at c [] (y ∷ b) r s ha hb e = ground arith
split_at c (x ∷ a) [] r s ha hb e = ground arith
split_at c (x ∷ a) (y ∷ b) r s ha hb e = ground (arith, split_at c a b r s)

length-ne-append : (a s r : Text) (x : ℕ) → length r ≡ length s → r ≢ (x ∷ a) ++ s
length-ne-append a s r x e h = omega (arith, length-append a s, ap (λ (t : Text). length t) h)

-- Two texts that end in parts of one length.
pub append_cancel : (a b r s : Text) → length r ≡ length s → a ++ r ≡ b ++ s → (a ≡ b) × (r ≡ s)
append_cancel [] [] r s e h = (refl, h)
append_cancel [] (y ∷ b) r s e h = absurd (length-ne-append b s r y e h)
append_cancel (x ∷ a) [] r s e h = absurd (length-ne-append a r s x (sym e) (sym h))
append_cancel (x ∷ a) (y ∷ b) r s e h = ground (arith, append_cancel a b r s)

pub prefix_cancel : (p a b : Text) → p ++ a ≡ p ++ b → a ≡ b
prefix_cancel [] a b e = e
prefix_cancel (c ∷ p) a b e = ground (arith, prefix_cancel p a b)

-- The words of `strings.Fields`, with the letters read so far of a word that has begun.
unfoldable pub fields_from : Text → Text → List Text
fields_from word [] = if is_empty word then [] else word ∷ []
fields_from word (c ∷ s) =
    let rest = fields_from [] s in
    let longer = fields_from (word ++ c ∷ []) s in
    if is_space c then (if is_empty word then rest else word ∷ rest) else longer

-- `strings.Fields`
unfoldable pub fields : Text → List Text
unfolding fields_from is_space
fields s = fields_from [] s

-- A space ends a word, and the words behind it do not depend on those before.
pub length-fields_from-space :
    (word s t : Text)
    → length (fields_from word (s ++ 0x20 ∷ t))
      ≡ length (fields_from word s) + length (fields_from [] t)
unfolding fields_from is_space
length-fields_from-space word [] t = ground arith
length-fields_from-space word (c ∷ s) t =
    ground (arith, length-fields_from-space [] s t, length-fields_from-space (word ++ c ∷ []) s t)

-- The parts of a text between the separators `c`, as `strings.Split` gives them for one character.
unfoldable pub split_from : ℕ → Text → Text → List Text
split_from c part [] = part ∷ []
split_from c part (d ∷ s) =
    let closed = split_from c [] s in
    let longer = split_from c (part ++ d ∷ []) s in if d == c then part ∷ closed else longer

unfoldable pub split : ℕ → Text → List Text
unfolding split_from
split c s = split_from c [] s

pub head-ne : (a b : ℕ) (s t : Text) → a ≢ b → a ∷ s ≢ b ∷ t
head-ne a b s t h e = h (cc e)

pub text_eq-false : (s t : Text) → s ≢ t → text_eq s t ≡ false
text_eq-false s t h = ground (arith, text_eq_iff s t)
