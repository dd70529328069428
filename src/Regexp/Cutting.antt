-- ===== src/Regexp/Cutting.antt =====
-- Matches in a part of a text: an expression whose classes leave out a character matches up to that
-- character what it matches in the text before it.
use marginpilot.Base.{
  ℕ, zero, suc, ◌≤◌, ◌<◌, ◌≡◌, inl, inr, refl, ap, subst, arith, Text, List, [], ◌∷◌, ◌++◌, length,
  length-append, flat_map, some, false, Mem, Mem-append_left, Mem-append_right, Mem-flat_map,
}
use marginpilot.Regexp.{Re, one, boundary, cat, opt, star, Spot, ends, star_from, onward}
use marginpilot.Regexp.Places.{
  Mem_append, Mem_flat_map, Mem_if, Mem_only, onward-Mem, Mem-onward, Mem-star_self,
}

-- The place with more text behind it.
abbrev pub extended : Text → Spot → Spot
extended z s = (s.0, s.1 ++ z)

shorter-extended :
    (z : Text) (s t : Spot)
    → (length t.1 < length s.1 → length (t.1 ++ z) < length (s.1 ++ z))
      × (length (t.1 ++ z) < length (s.1 ++ z) → length t.1 < length s.1)
shorter-extended z s t = (
  λ h. omega (arith, h, length-append t.1 z, length-append s.1 z),
  λ h. omega (arith, h, length-append t.1 z, length-append s.1 z),
)

-- A step that finds, with more text, what it finds without it.
abbrev Extends : Text → (Spot → List Spot) → Type 0
Extends z step = (s t : Spot) → Mem t (step s) → Mem (extended z t) (step (extended z s))

star_from-Extends :
    (z : Text) (step : Spot → List Spot) (n m : ℕ) (s t : Spot)
    → Extends z step
    → n ≤ m
    → Mem t (star_from n step s)
    → Mem (extended z t) (star_from m step (extended z s))
unfolding star_from
star_from-Extends z step zero m s t each le k =
    rw (Mem_only t s k) (Mem-star_self m step (extended z s))
star_from-Extends z step (suc n) zero s t each le k = absurd (omega (arith, le))
star_from-Extends z step (suc n) (suc m) s t each le k =
    elim (Mem_append t (flat_map (onward s (star_from n step)) (step s)) (s ∷ []) k) [
      | inl l ↦
          let (v, here, later) = Mem_flat_map (onward s (star_from n step)) (step s) t l in
          let (nearer, again) = onward-Mem s v t (star_from n step) later in
          Mem-append_left _ _ _ (
            Mem-flat_map (onward (extended z s) (star_from m step)) (step (extended z s))
              (extended z v) _ (each s v here)
              (Mem-onward (extended z s) (extended z v) _ (star_from m step)
                ((shorter-extended z s v).0 nearer)
                (star_from-Extends z step n m v t each (omega (arith, le)) again)))
      | inr r ↦ rw (Mem_only t s r) (Mem-star_self (suc m) step (extended z s))
    ]

-- The expression has no boundary, and none of its classes has the character `x`.
abbrev pub Avoids : ℕ → Re → Type 0
Avoids x (one p) = p x ≡ false
Avoids x boundary = ⊥
Avoids x (cat r q) = Avoids x r × Avoids x q
Avoids x (opt r) = Avoids x r
Avoids x (star r) = Avoids x r

-- What matches without the text behind matches with it.
pub ends-Extends : (x : ℕ) (z : Text) (r : Re) → Avoids x r → Extends z (ends r)
unfolding ends
ends-Extends x z (one p) h (b, []) t m = absurd m
ends-Extends x z (one p) h (b, c ∷ s) t m =
    let (p_ok, m') = Mem_if (p c) t ((some c, s) ∷ []) m in
    rw (p_ok, Mem_only t (some c, s) m') (inl refl)
ends-Extends x z boundary h s t m = absurd h
ends-Extends x z (cat r q) (h, k) s t m =
    let (v, first, next) = Mem_flat_map (ends q) (ends r s) t m in
    Mem-flat_map (ends q) (ends r (extended z s)) (extended z v) (extended z t)
      (ends-Extends x z r h s v first) (ends-Extends x z q k v t next)
ends-Extends x z (opt r) h s t m = elim (Mem_append t (ends r s) (s ∷ []) m) [
  | inl l ↦ Mem-append_left (extended z t) (ends r (extended z s)) _ (ends-Extends x z r h s t l)
  | inr k ↦
      Mem-append_right (extended z t) (ends r (extended z s)) (extended z s ∷ [])
        (inl (ap (extended z) (Mem_only t s k)))
]
ends-Extends x z (star r) h s t m =
    star_from-Extends z (ends r) (length s.1) (length (s.1 ++ z)) s t (ends-Extends x z r h)
      (omega (arith, length-append s.1 z)) m

-- A step that finds, with more text, only what it finds without it.
abbrev Cuts : Text → (Spot → List Spot) → Type 0
Cuts z step =
    (s t : Spot) → Mem t (step (extended z s)) → (v : Spot) × (t ≡ extended z v) × Mem v (step s)

-- A round of a star, without the text behind.
round-Cuts :
    (z : Text) (step again : Spot → List Spot) (s t : Spot)
    → Cuts z step
    → Mem t (flat_map (onward (extended z s) again) (step (extended z s)))
    → (v : Spot) × Mem v (step s) × (length v.1 < length s.1) × Mem t (again (extended z v))
round-Cuts z step again s t each m =
    let (u, here, later) = Mem_flat_map (onward (extended z s) again) (step (extended z s)) t m in
    let (v, same, first) = each s u here in
    let (nearer, next) =
      onward-Mem (extended z s) (extended z v) t again
        (subst (λ (q : Spot). Mem t (onward (extended z s) again q)) same later) in
    (v, first, (shorter-extended z s v).1 nearer, next)

star_from-Cuts :
    (z : Text) (step : Spot → List Spot) (n m : ℕ) (s t : Spot)
    → Cuts z step
    → length s.1 ≤ m
    → Mem t (star_from n step (extended z s))
    → (v : Spot) × (t ≡ extended z v) × Mem v (star_from m step s)
unfolding star_from
star_from-Cuts z step zero m s t each le k =
    (s, Mem_only t (extended z s) k, Mem-star_self m step s)
star_from-Cuts z step (suc n) zero s t each le k =
    elim (Mem_append t (flat_map (onward (extended z s) (star_from n step)) (step (extended z s)))
      (extended z s ∷ []) k) [
        | inl l ↦
            let (v, first, nearer, next) = round-Cuts z step (star_from n step) s t each l in
            absurd (omega (arith, le, nearer))
        | inr r ↦ (s, Mem_only t (extended z s) r, inl refl)
      ]
star_from-Cuts z step (suc n) (suc m) s t each le k =
    elim (Mem_append t (flat_map (onward (extended z s) (star_from n step)) (step (extended z s)))
      (extended z s ∷ []) k) [
        | inl l ↦
            let (v, first, nearer, next) = round-Cuts z step (star_from n step) s t each l in
            let (w, same, found) =
              star_from-Cuts z step n m v t each (omega (arith, le, nearer)) next in
            (
              w,
              same,
              Mem-append_left w (flat_map (onward s (star_from m step)) (step s)) (s ∷ []) (
                  Mem-flat_map (onward s (star_from m step)) (step s) v w first
                    (Mem-onward s v w (star_from m step) nearer found)),
            )
        | inr r ↦ (s, Mem_only t (extended z s) r, Mem-star_self (suc m) step s)
      ]

-- An expression that avoids a character matches, before it, only what it matches without it.
pub ends-Cuts : (x : ℕ) (rest : Text) (r : Re) → Avoids x r → Cuts (x ∷ rest) (ends r)
unfolding ends
ends-Cuts x rest (one p) h (b, []) t m = cc (h, (Mem_if (p x) t ((some x, rest) ∷ []) m).0)
ends-Cuts x rest (one p) h (b, c ∷ s) t m =
    let (p_ok, m') = Mem_if (p c) t ((some c, s ++ x ∷ rest) ∷ []) m in
    ((some c, s), Mem_only t (some c, s ++ x ∷ rest) m', rw p_ok (inl refl))
ends-Cuts x rest boundary h s t m = absurd h
ends-Cuts x rest (cat r q) (h, k) s t m =
    let (u, first, next) = Mem_flat_map (ends q) (ends r (extended (x ∷ rest) s)) t m in
    let (v, same, first') = ends-Cuts x rest r h s u first in
    let (w, same', next') =
      ends-Cuts x rest q k v t (subst (λ (y : Spot). Mem t (ends q y)) same next) in
    (w, same', Mem-flat_map (ends q) (ends r s) v w first' next')
ends-Cuts x rest (opt r) h s t m =
    elim (Mem_append t (ends r (extended (x ∷ rest) s)) (extended (x ∷ rest) s ∷ []) m) [
      | inl l ↦
          let (v, same, found) = ends-Cuts x rest r h s t l in
          (v, same, Mem-append_left v (ends r s) (s ∷ []) found)
      | inr k ↦ (
        s,
        Mem_only t (extended (x ∷ rest) s) k,
        Mem-append_right s (ends r s) (s ∷ []) (inl refl),
      )
    ]
ends-Cuts x rest (star r) h s t m =
    star_from-Cuts (x ∷ rest) (ends r) (length (s.1 ++ x ∷ rest)) (length s.1) s t
      (ends-Cuts x rest r h) (omega arith) m
