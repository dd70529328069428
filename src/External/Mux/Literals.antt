-- ===== src/External/Mux/Literals.antt =====
-- Patterns without wildcards.
use marginpilot.Base.{
  Text, text_eq, text_eq_iff, ◌≡◌, ◌↔◌, refl, arith, Bool-cases, inl, inr, List, [], ◌∷◌, map, Bool,
  true, false, ◌&&◌, Option, some, none, if◌then◌else◌,
}
use marginpilot.External.Mux.{literal, match_segments, or_later, Params}

abbrev pub same : List Text → List Text → Bool
same [] [] = true
same (s ∷ ss) (t ∷ ts) = text_eq s t && same ss ts
same _ _ = false

pub same_iff : (ss ts : List Text) → (same ss ts ≡ true) ↔ (ss ≡ ts)
same_iff [] [] = ground arith
same_iff [] (t ∷ ts) = ground arith
same_iff (s ∷ ss) [] = ground arith
same_iff (s ∷ ss) (t ∷ ts) = ground (arith, text_eq_iff s t, same_iff ss ts)

-- Literal segments match the same segments and no other.
pub match_segments-same :
    (ls parts : List Text)
    → match_segments false (map literal ls) parts ≡ (if same ls parts then some [] else none)
unfolding match_segments
match_segments-same [] [] = refl
match_segments-same [] (s ∷ rest) = refl
match_segments-same (l ∷ ls) [] = refl
match_segments-same (l ∷ ls) (s ∷ rest) = elim (Bool-cases (text_eq l s)) [
  | inl p ↦ rw p (match_segments-same ls rest)
  | inr q ↦ rw q refl
]

-- A pattern that does not match leaves the choice to the later ones.
pub or_later-none :
    {H : Type 0} (b : Bool) (h : H) (later : Option (H × Params)) → or_later b none h later ≡ later
or_later-none true h later = refl
or_later-none false h later = refl
