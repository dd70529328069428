-- ===== src/Regexp.antt =====
-- Go's package `regexp`, as far as services/gateway/internal/adapter/outbound/guardrail uses it: the
-- expressions of its patterns, leftmost-first matching, and replacement. Only expressions that match
-- no empty text are replaced.
pub mod Cutting
pub mod Finding
pub mod Places
pub mod Redaction
pub mod Rounds
use marginpilot.Base.{
  ℕ, zero, suc, ◌+◌, ◌-◌, Text, List, [], ◌∷◌, ◌++◌, length, flat_map, Option, none, some, Bool,
  true, false, not, ◌||◌, ◌&&◌, leb, ltb, ◌==◌, if◌then◌else◌,
}

pub data Re : Type 0 where
  -- one character of a class
  one : (ℕ → Bool) → Re
  -- `\b`
  boundary : Re
  cat : Re → Re → Re
  -- greedy `?` and `*`
  opt : Re → Re
  star : Re → Re

-- `r+`
abbrev pub plus : Re → Re
plus r = cat r (star r)

-- `r` as many times as the number and once more.
abbrev pub times : ℕ → Re → Re
times zero r = r
times (suc n) r = cat r (times n r)

-- `r{0,n+1}`, as the package expands it: each `r` stands in the option of the one before.
abbrev pub up_to : ℕ → Re → Re
up_to zero r = opt r
up_to (suc n) r = opt (cat r (up_to n r))

-- A place in a text: the character before it, if any, and what is left.
abbrev pub Spot : Type 0
Spot = Option ℕ × Text

abbrev pub is_digit : ℕ → Bool
is_digit c = leb b'0' c && leb c b'9'

abbrev pub is_letter : ℕ → Bool
is_letter c = (leb b'a' c && leb c b'z') || (leb b'A' c && leb c b'Z')

-- `\w`
abbrev is_word : ℕ → Bool
is_word c = is_letter c || is_digit c || c == b'_'

abbrev word_before : Option ℕ → Bool
word_before none = false
word_before (some c) = is_word c

abbrev word_after : Text → Bool
word_after [] = false
word_after (c ∷ s) = is_word c

abbrev is_boundary : Spot → Bool
is_boundary (b, s) = if word_before b then not (word_after s) else word_after s

-- A repetition goes on only from a place further on.
abbrev pub onward : Spot → (Spot → List Spot) → Spot → List Spot
onward s again t = if ltb (length t.1) (length s.1) then again t else []

-- The ends of `r*`, on fuel for its rounds, of which there are at most as many as characters left.
unfoldable pub star_from : ℕ → (Spot → List Spot) → Spot → List Spot
star_from zero step s = s ∷ []
star_from (suc fuel) step s = flat_map (onward s (star_from fuel step)) (step s) ++ s ∷ []

-- The places where a match that begins here can end, the preferred one first.
unfoldable pub ends : Re → Spot → List Spot
unfolding star_from
ends (one p) (b, []) = []
ends (one p) (b, c ∷ s) = if p c then (some c, s) ∷ [] else []
ends boundary s = if is_boundary s then s ∷ [] else []
ends (cat r q) s = flat_map (ends q) (ends r s)
ends (opt r) s = ends r s ++ s ∷ []
ends (star r) s = star_from (length s.1) (ends r) s

abbrev pub is_nil : List Spot → Bool
is_nil [] = true
is_nil (_ ∷ _) = false

-- Whether a match begins here or later.
unfoldable pub found_from : Re → Option ℕ → Text → Bool
unfolding ends
found_from r b [] = not (is_nil (ends r (b, [])))
found_from r b (c ∷ s) = not (is_nil (ends r (b, c ∷ s))) || found_from r (some c) s

-- `MatchString`
unfoldable pub match_string : Re → Text → Bool
unfolding found_from
match_string r s = found_from r none s

-- The text after replacement, on fuel for the characters left; `again` is the rest of the work.
unfoldable pub emit_or_replace : Text → ℕ → Text → List Spot → (Option ℕ → Text → Text) → Text
emit_or_replace new c s [] again = c ∷ again (some c) s
emit_or_replace new c s ((b, t) ∷ _) again = new ++ again b t

unfoldable pub replace_from : ℕ → Re → Text → Option ℕ → Text → Text
unfolding ends emit_or_replace
replace_from zero r new b s = s
replace_from (suc fuel) r new b [] = []
replace_from (suc fuel) r new b (c ∷ s) =
    emit_or_replace new c s (ends r (b, c ∷ s)) (replace_from fuel r new)

-- `ReplaceAllString`, for a replacement with no `$`
unfoldable pub replace_all : Re → Text → Text → Text
unfolding replace_from
replace_all r s new = replace_from (length s) r new none s
