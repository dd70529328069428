-- ===== src/Regexp/Rounds.antt =====
-- That a star has rounds enough.
use marginpilot.Base.{
  ℕ, zero, suc, ◌≤◌, ◌<◌, ◌≡◌, refl, sym, ap, arith, List, [], ◌∷◌, ◌++◌, length, flat_map,
}
use marginpilot.Regexp.{Spot, onward, star_from}

flat_map-same :
    {A B : Type 0} (f g : A → List B) (xs : List A)
    → ((a : A) → f a ≡ g a)
    → flat_map f xs ≡ flat_map g xs
flat_map-same f g [] h = refl
flat_map-same f g (x ∷ xs) h = rw (h x, flat_map-same f g xs h) refl

onward-same :
    (s t : Spot) (again again' : Spot → List Spot)
    → (length t.1 < length s.1 → again t ≡ again' t)
    → onward s again t ≡ onward s again' t
onward-same s t again again' h = ground (arith, h)

module _ (step : Spot → List Spot) where
  no_rounds :
      (s : Spot) (again : Spot → List Spot) (xs : List Spot)
      → length s.1 ≤ 0
      → flat_map (onward s again) xs ≡ []
  no_rounds s again [] h = refl
  no_rounds s again (x ∷ xs) h = ground (arith, no_rounds s again xs h)

  -- A star with as many rounds as the text has characters left finds every end that one with more
  -- rounds finds, in the same order.
  star_from_enough :
      (n m : ℕ) (s : Spot)
      → length s.1 ≤ n
      → length s.1 ≤ m
      → star_from n step s ≡ star_from m step s
  unfolding star_from
  star_from_enough zero zero s h k = refl
  star_from_enough zero (suc m) s h k =
      ap (λ (l : List Spot). l ++ s ∷ []) (sym (no_rounds s (star_from m step) (step s) h))
  star_from_enough (suc n) zero s h k =
      ap (λ (l : List Spot). l ++ s ∷ []) (no_rounds s (star_from n step) (step s) k)
  star_from_enough (suc n) (suc m) s h k =
      ap (λ (l : List Spot). l ++ s ∷ [])
        (flat_map-same (onward s (star_from n step)) (onward s (star_from m step)) (step s) (λ t.
          onward-same s t (star_from n step) (star_from m step) (λ shorter.
            star_from_enough n m t (omega (arith, h, shorter)) (omega (arith, k, shorter)))))
