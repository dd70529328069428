-- ===== src/Regexp/Finding.antt =====
-- When an expression cannot match, and when it must.
use marginpilot.Base.{
  ℕ, zero, suc, ◌≤◌, ◌≡◌, ◌⊎◌, inl, inr, refl, ap, arith, not, ◌||◌, Text, List, [], ◌∷◌, ◌++◌,
  length, flat_map, Option, none, some, Bool, true, false, Bool-cases, ltb, if◌then◌else◌, All, Mem,
  Mem-append_left, Mem-append_right, Mem-flat_map, lt→ltb,
}
use marginpilot.Regexp.{
  Re, one, boundary, cat, opt, star, plus, Spot, ends, star_from, onward, is_nil, found_from,
  match_string, replace_from, replace_all, emit_or_replace,
}

module _ (p : ℕ → Bool) where
  -- The text has no character of the class `p`.
  abbrev pub IsFree : Text → Type 0
  IsFree s = All (λ c. p c ≡ false) s

  -- Every match of the expression takes a character of the class `p`.
  abbrev pub Needs : Re → Type 0
  Needs (one q) = (c : ℕ) → q c ≡ true → p c ≡ true
  Needs boundary = ⊥
  Needs (cat r q) = Needs r ⊎ Needs q
  Needs (opt r) = ⊥
  Needs (star r) = ⊥

  abbrev AllFree : List Spot → Type 0
  AllFree ts = All (λ t. IsFree t.1) ts

  AllFree-append : (ts us : List Spot) → AllFree ts → AllFree us → AllFree (ts ++ us)
  AllFree-append [] us a b = b
  AllFree-append (t ∷ ts) us (h, a) b = (h, AllFree-append ts us a b)

  AllFree-flat_map :
      (f : Spot → List Spot) (ts : List Spot)
      → ((t : Spot) → IsFree t.1 → AllFree (f t))
      → AllFree ts
      → AllFree (flat_map f ts)
  AllFree-flat_map f [] each a = tt
  AllFree-flat_map f (t ∷ ts) each (h, a) =
      AllFree-append (f t) _ (each t h) (AllFree-flat_map f ts each a)

  AllFree-if : (b : Bool) (ts : List Spot) → AllFree ts → AllFree (if b then ts else [])
  AllFree-if true ts a = a
  AllFree-if false ts a = tt

  AllFree-star_from :
      (fuel : ℕ) (step : Spot → List Spot) (s : Spot)
      → ((t : Spot) → IsFree t.1 → AllFree (step t))
      → IsFree s.1
      → AllFree (star_from fuel step s)
  unfolding star_from
  AllFree-star_from zero step s each h = (h, tt)
  AllFree-star_from (suc fuel) step s each h =
      AllFree-append (flat_map (onward s (star_from fuel step)) (step s)) (s ∷ [])
        (AllFree-flat_map (onward s (star_from fuel step)) (step s)
          (λ t k.
            AllFree-if (ltb (length t.1) (length s.1)) _ (AllFree-star_from fuel step t each k))
          (each s h))
        (h, tt)

  ends-AllFree : (r : Re) (s : Spot) → IsFree s.1 → AllFree (ends r s)
  unfolding ends
  ends-AllFree (one q) (b, []) h = tt
  ends-AllFree (one q) (b, c ∷ s) (k, h) = AllFree-if (q c) ((some c, s) ∷ []) (h, tt)
  ends-AllFree boundary s h = AllFree-if _ (s ∷ []) (h, tt)
  ends-AllFree (cat r q) s h =
      AllFree-flat_map (ends q) (ends r s) (ends-AllFree q) (ends-AllFree r s h)
  ends-AllFree (opt r) s h = AllFree-append (ends r s) (s ∷ []) (ends-AllFree r s h) (h, tt)
  ends-AllFree (star r) s h = AllFree-star_from (length s.1) (ends r) s (ends-AllFree r) h

  flat_map-nil :
      (f : Spot → List Spot) (ts : List Spot)
      → ((t : Spot) → IsFree t.1 → f t ≡ [])
      → AllFree ts
      → flat_map f ts ≡ []
  flat_map-nil f [] each a = refl
  flat_map-nil f (t ∷ ts) each (h, a) = rw (each t h) (flat_map-nil f ts each a)

  ends-nil : (r : Re) (s : Spot) → Needs r → IsFree s.1 → ends r s ≡ []
  unfolding ends
  ends-nil (one q) (b, []) n h = refl
  ends-nil (one q) (b, c ∷ s) n (k, h) = elim (Bool-cases (q c)) [
    | inl e ↦ cc (n c e, k)
    | inr e ↦ rw e refl
  ]
  ends-nil (cat r q) s (inl n) h = rw (ends-nil r s n h) refl
  ends-nil (cat r q) s (inr n) h =
      flat_map-nil (ends q) (ends r s) (λ t k. ends-nil q t n k) (ends-AllFree r s h)
  ends-nil boundary s n h = elim n [ ]
  ends-nil (opt _) s n h = elim n [ ]
  ends-nil (star _) s n h = elim n [ ]

  found_from-free :
      (r : Re) (b : Option ℕ) (s : Text) → Needs r → IsFree s → found_from r b s ≡ false
  unfolding found_from
  found_from-free r b [] n h = rw (ends-nil r (b, []) n h) refl
  found_from-free r b (c ∷ s) n h =
      rw (ends-nil r (b, c ∷ s) n h) (found_from-free r (some c) s n h.1)

  -- An expression whose matches need a character of a class does not match a text with none.
  pub match_string-free : (r : Re) (s : Text) → Needs r → IsFree s → match_string r s ≡ false
  unfolding match_string
  match_string-free r s n h = found_from-free r none s n h

-- The character before the place behind a text.
abbrev pub last_of : Option ℕ → Text → Option ℕ
last_of b [] = b
last_of b (c ∷ s) = last_of (some c) s

abbrev pub AllIn : (ℕ → Bool) → Text → Type 0
AllIn p s = All (λ c. p c ≡ true) s

pub Mem-one :
    (p : ℕ → Bool) (b : Option ℕ) (c : ℕ) (s : Text)
    → p c ≡ true
    → Mem (some c, s) (ends (one p) (b, c ∷ s))
unfolding ends
Mem-one p b c s h = rw h (inl refl)

pub Mem-cat :
    (r q : Re) (s t v : Spot) → Mem t (ends r s) → Mem v (ends q t) → Mem v (ends (cat r q) s)
unfolding ends
Mem-cat r q s t v m n = Mem-flat_map (ends q) (ends r s) t v m n

Mem-star_from :
    (p : ℕ → Bool) (u s : Text) (b : Option ℕ) (fuel : ℕ)
    → AllIn p u
    → length (u ++ s) ≤ fuel
    → Mem (last_of b u, s) (star_from fuel (ends (one p)) (b, u ++ s))
unfolding star_from
Mem-star_from p [] s b zero h f = inl refl
Mem-star_from p [] s b (suc fuel) h f = Mem-append_right (b, s) _ ((b, s) ∷ []) (inl refl)
Mem-star_from p (c ∷ u) s b zero h f = absurd (omega (arith, f))
Mem-star_from p (c ∷ u) s b (suc fuel) (k, h) f =
    Mem-append_left (last_of (some c) u, s) _ ((b, c ∷ (u ++ s)) ∷ [])
      (Mem-flat_map (onward (b, c ∷ (u ++ s)) (star_from fuel (ends (one p))))
        (ends (one p) (b, c ∷ (u ++ s))) (some c, u ++ s) _ (Mem-one p b c (u ++ s) k)
        (rw (lt→ltb (length (u ++ s)) (suc (length (u ++ s))) (omega arith))
          (Mem-star_from p u s (some c) fuel h (omega (arith, f)))))

-- A run of characters of a class can be taken by `p+` whole.
pub Mem-plus :
    (p : ℕ → Bool) (c : ℕ) (u s : Text) (b : Option ℕ)
    → p c ≡ true
    → AllIn p u
    → Mem (last_of (some c) u, s) (ends (plus (one p)) (b, c ∷ (u ++ s)))
Mem-plus p c u s b k h =
    Mem-cat (one p) (star (one p)) (b, c ∷ (u ++ s)) (some c, u ++ s) _ (Mem-one p b c (u ++ s) k)
      (unfold ends in Mem-star_from p u s (some c) (length (u ++ s)) h (omega arith))

is_nil-Mem : (t : Spot) (ts : List Spot) → Mem t ts → is_nil ts ≡ false
is_nil-Mem t [] m = absurd m
is_nil-Mem t (u ∷ ts) m = refl

found_from-here :
    (r : Re) (b : Option ℕ) (s : Text) (t : Spot) → Mem t (ends r (b, s)) → found_from r b s ≡ true
unfolding found_from
found_from-here r b [] t m = rw (is_nil-Mem t (ends r (b, [])) m) refl
found_from-here r b (c ∷ s) t m = rw (is_nil-Mem t (ends r (b, c ∷ s)) m) refl

found_from-later :
    (r : Re) (a s : Text) (b : Option ℕ)
    → ((b' : Option ℕ) → found_from r b' s ≡ true)
    → found_from r b (a ++ s) ≡ true
unfolding found_from
found_from-later r [] s b h = h b
found_from-later r (c ∷ a) s b h = ground (arith, found_from-later r a s (some c) h)

-- An expression that matches at some place of a text, whatever stands before it, is found.
pub match_string-found :
    (r : Re) (a s : Text)
    → ((b : Option ℕ) → (t : Spot) × Mem t (ends r (b, s)))
    → match_string r (a ++ s) ≡ true
unfolding match_string
match_string-found r a s h =
    found_from-later r a s none (λ b. let (t, m) = h b in found_from-here r b s t m)

kept_here :
    (r : Re) (new : Text) (fuel c : ℕ) (s : Text) (ts : List Spot)
    → (not (is_nil ts) || found_from r (some c) s) ≡ false
    → (found_from r (some c) s ≡ false → replace_from fuel r new (some c) s ≡ s)
    → emit_or_replace new c s ts (replace_from fuel r new) ≡ c ∷ s
unfolding emit_or_replace
kept_here r new fuel c s [] h later = ap (λ (rest : Text). c ∷ rest) (later h)
kept_here r new fuel c s (t ∷ ts) h later = cc h

kept_from :
    (r : Re) (new : Text) (fuel : ℕ) (b : Option ℕ) (s : Text)
    → found_from r b s ≡ false
    → replace_from fuel r new b s ≡ s
unfolding found_from replace_from emit_or_replace
kept_from r new zero b s h = refl
kept_from r new (suc fuel) b [] h = refl
kept_from r new (suc fuel) b (c ∷ s) h =
    kept_here r new fuel c s (ends r (b, c ∷ s)) h (kept_from r new fuel (some c) s)

-- Where an expression does not match, its replacement changes nothing.
pub replace_all-unmatched :
    (r : Re) (s new : Text) → match_string r s ≡ false → replace_all r s new ≡ s
unfolding match_string replace_all
replace_all-unmatched r s new h = kept_from r new (length s) none s h
