-- ===== src/Regexp/Places.antt =====
-- The places where a match can end.
use marginpilot.Base.{
  ℕ, zero, suc, ◌≤◌, ◌<◌, ◌≡◌, ◌⊎◌, inl, inr, refl, sym, ap, subst, ◌∙◌, arith, Text, List, [], ◌∷◌,
  ◌++◌, length, length-append, append_assoc, flat_map, Option, some, Bool, true, false, ltb,
  if◌then◌else◌, Mem, Mem-append_right, lt→ltb, ltb→lt,
}
use marginpilot.Regexp.{Re, one, boundary, cat, opt, star, Spot, ends, star_from, onward}

pub Mem_append : {A : Type 0} (x : A) (xs ys : List A) → Mem x (xs ++ ys) → Mem x xs ⊎ Mem x ys
Mem_append x [] ys m = inr m
Mem_append x (y ∷ xs) ys (inl e) = inl (inl e)
Mem_append x (y ∷ xs) ys (inr m) = elim (Mem_append x xs ys m) [
  | inl l ↦ inl (inr l)
  | inr r ↦ inr r
]

pub Mem_flat_map :
    {A B : Type 0} (f : A → List B) (xs : List A) (y : B)
    → Mem y (flat_map f xs)
    → (x : A) × Mem x xs × Mem y (f x)
Mem_flat_map f [] y m = absurd m
Mem_flat_map f (x ∷ xs) y m = elim (Mem_append y (f x) (flat_map f xs) m) [
  | inl l ↦ (x, inl refl, l)
  | inr r ↦ let (x', m', n') = Mem_flat_map f xs y r in (x', inr m', n')
]

pub Mem_if :
    {A : Type 0} (b : Bool) (x : A) (xs : List A)
    → Mem x (if b then xs else [])
    → (b ≡ true) × Mem x xs
Mem_if true x xs m = (refl, m)
Mem_if false x xs m = absurd m

pub Mem_only : {A : Type 0} (x y : A) → Mem x (y ∷ []) → x ≡ y
Mem_only x y (inl e) = e
Mem_only x y (inr m) = absurd m

pub onward-Mem :
    (s t v : Spot) (again : Spot → List Spot)
    → Mem v (onward s again t)
    → (length t.1 < length s.1) × Mem v (again t)
onward-Mem s t v again m =
    let (p, m') = Mem_if (ltb (length t.1) (length s.1)) v (again t) m in
    (ltb→lt (length t.1) (length s.1) p, m')

pub Mem-onward :
    (s t v : Spot) (again : Spot → List Spot)
    → length t.1 < length s.1
    → Mem v (again t)
    → Mem v (onward s again t)
Mem-onward s t v again h m = rw (lt→ltb (length t.1) (length s.1) h) m

pub Mem-star_self : (fuel : ℕ) (step : Spot → List Spot) (s : Spot) → Mem s (star_from fuel step s)
unfolding star_from
Mem-star_self zero step s = inl refl
Mem-star_self (suc fuel) step s = Mem-append_right s _ (s ∷ []) (inl refl)

-- The second place is the first one or further on.
abbrev pub IsAfter : Spot → Spot → Type 0
IsAfter s t = (w : Text) × (s.1 ≡ w ++ t.1)

IsAfter-trans : (s t v : Spot) → IsAfter s t → IsAfter t v → IsAfter s v
IsAfter-trans s t v (w, e) (w', e') =
    (w ++ w', e ∙ ap (λ (r : Text). w ++ r) e' ∙ sym (append_assoc w w' v.1))

star_from-IsAfter :
    (fuel : ℕ) (step : Spot → List Spot) (s t : Spot)
    → ((s' t' : Spot) → Mem t' (step s') → IsAfter s' t')
    → Mem t (star_from fuel step s)
    → IsAfter s t
unfolding star_from
star_from-IsAfter zero step s t each m = ([], ap (λ (v : Spot). v.1) (sym (Mem_only t s m)))
star_from-IsAfter (suc fuel) step s t each m =
    elim (Mem_append t (flat_map (onward s (star_from fuel step)) (step s)) (s ∷ []) m) [
      | inl l ↦
          let (v, here, later) = Mem_flat_map (onward s (star_from fuel step)) (step s) t l in
          IsAfter-trans s v t (each s v here)
            (star_from-IsAfter fuel step v t each (onward-Mem s v t (star_from fuel step) later).1)
      | inr r ↦ ([], ap (λ (v : Spot). v.1) (sym (Mem_only t s r)))
    ]

-- A match ends where it begins or further on.
pub ends-IsAfter : (r : Re) (s t : Spot) → Mem t (ends r s) → IsAfter s t
unfolding ends
ends-IsAfter (one p) (b, []) t m = absurd m
ends-IsAfter (one p) (b, c ∷ s) t m =
    let same = Mem_only t (some c, s) (Mem_if (p c) t ((some c, s) ∷ []) m).1 in
    (c ∷ [], ap (λ (v : Spot). c ∷ v.1) (sym same))
ends-IsAfter boundary s t m =
    let same = Mem_only t s (Mem_if _ t (s ∷ []) m).1 in ([], ap (λ (v : Spot). v.1) (sym same))
ends-IsAfter (cat r q) s t m =
    let (v, first, then_) = Mem_flat_map (ends q) (ends r s) t m in
    IsAfter-trans s v t (ends-IsAfter r s v first) (ends-IsAfter q v t then_)
ends-IsAfter (opt r) s t m = elim (Mem_append t (ends r s) (s ∷ []) m) [
  | inl l ↦ ends-IsAfter r s t l
  | inr k ↦ ([], ap (λ (v : Spot). v.1) (sym (Mem_only t s k)))
]
ends-IsAfter (star r) s t m = star_from-IsAfter (length s.1) (ends r) s t (ends-IsAfter r) m

length-IsAfter : (s t : Spot) → IsAfter s t → length t.1 ≤ length s.1
length-IsAfter s t (w, e) = rw e (omega (arith, length-append w t.1))

-- An expression that begins with a character of a class takes it.
pub length-ends :
    (p : ℕ → Bool) (q q' : Re) (b : Option ℕ) (c : ℕ) (s : Text) (t : Spot)
    → Mem t (ends (cat (cat (one p) q) q') (b, c ∷ s))
    → length t.1 ≤ length s
unfolding ends
length-ends p q q' b c s t m =
    let (v, first, next) = Mem_flat_map (ends q') (ends (cat (one p) q) (b, c ∷ s)) t m in
    let (u, head, tail) = Mem_flat_map (ends q) (ends (one p) (b, c ∷ s)) v first in
    let same = Mem_only u (some c, s) (Mem_if (p c) u ((some c, s) ∷ []) head).1 in
    length-IsAfter (some c, s) t
      (IsAfter-trans (some c, s) v t
        (ends-IsAfter q (some c, s) v (subst (λ (x : Spot). Mem v (ends q x)) same tail))
        (ends-IsAfter q' v t next))
