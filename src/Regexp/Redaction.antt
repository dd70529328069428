-- ===== src/Regexp/Redaction.antt =====
-- What is left to be found after replacement, by a text in brackets.
use marginpilot.Base.{
  ℕ, zero, suc, ◌≤◌, ◌≡◌, inl, refl, sym, ap, subst, ◌∙◌, arith, Text, List, [], ◌∷◌, ◌++◌, length,
  append_assoc, append-nil, Option, none, some, Bool, true, false, Mem,
}
use marginpilot.Regexp.{
  Re, one, cat, Spot, ends, is_nil, found_from, match_string, emit_or_replace, replace_from,
  replace_all,
}
use marginpilot.Regexp.Cutting.{Avoids, extended, ends-Extends, ends-Cuts}
use marginpilot.Regexp.Places.{ends-IsAfter, length-ends}

nil-Mem : (ts : List Spot) → ((t : Spot) → Mem t ts → ⊥) → is_nil ts ≡ true
nil-Mem [] h = refl
nil-Mem (t ∷ ts) h = absurd (h t (inl refl))

Mem-nil : (ts : List Spot) (t : Spot) → is_nil ts ≡ true → Mem t ts → ⊥
Mem-nil [] t h m = m
Mem-nil (u ∷ ts) t h m = cc h

-- The marks of a replacement and what stands between them.
abbrev pub bracketed : Text → Text
bracketed inner = b'[' ∷ (inner ++ b']' ∷ [])

-- An expression that matches no bracket and no empty text, and does not look at what is before it.
pub record IsPlain (r : Re) : Type 0 where
  pub no_open : Avoids b'[' r
  pub no_close : Avoids b']' r
  pub blind : (b b' : Option ℕ) (s : Text) → ends r (b, s) ≡ ends r (b', s)
  pub filled : (b : Option ℕ) → is_nil (ends r (b, [])) ≡ true
  pub consumes :
      (b : Option ℕ) (c : ℕ) (s : Text) (t : Spot)
      → Mem t (ends r (b, c ∷ s))
      → length t.1 ≤ length s

blind_one :
    (p : ℕ → Bool) (q q' : Re) (b b' : Option ℕ) (s : Text)
    → ends (cat (cat (one p) q) q') (b, s) ≡ ends (cat (cat (one p) q) q') (b', s)
unfolding ends
blind_one p q q' b b' [] = refl
blind_one p q q' b b' (c ∷ s) = refl

-- An expression that begins with a character of a class.
pub one-IsPlain :
    (p : ℕ → Bool) (q q' : Re)
    → Avoids b'[' (cat (cat (one p) q) q')
    → Avoids b']' (cat (cat (one p) q) q')
    → IsPlain (cat (cat (one p) q) q')
one-IsPlain p q q' no_open no_close = record {
  no_open = no_open;
  no_close = no_close;
  blind = blind_one p q q';
  filled = λ b. unfold ends in refl;
  consumes = length-ends p q q';
}

module _ (r : Re) (plain : IsPlain r) where
  nil-prefix :
      (b : Option ℕ) (u z : Text)
      → is_nil (ends r (b, u ++ z)) ≡ true
      → is_nil (ends r (b, u)) ≡ true
  nil-prefix b u z h = nil-Mem (ends r (b, u)) (λ t m.
      Mem-nil (ends r (b, u ++ z)) (extended z t) h
        (ends-Extends b'[' z r plain.no_open (b, u) t m))

  nil-cut :
      (x : ℕ) (b : Option ℕ) (u rest : Text)
      → Avoids x r
      → is_nil (ends r (b, u)) ≡ true
      → is_nil (ends r (b, u ++ x ∷ rest)) ≡ true
  nil-cut x b u rest avoids h = nil-Mem (ends r (b, u ++ x ∷ rest)) (λ t m.
      let (v, same, found) = ends-Cuts x rest r avoids (b, u) t m in
      Mem-nil (ends r (b, u)) v h found)

  -- The expression is not found in a text.
  abbrev pub Misses : Text → Type 0
  Misses s = (b : Option ℕ) → found_from r b s ≡ false

  pub Misses-any : (b : Option ℕ) (s : Text) → found_from r b s ≡ false → Misses s
  unfolding found_from
  Misses-any b [] h b' = rw (plain.blind b' b []) h
  Misses-any b (c ∷ s) h b' = rw (plain.blind b' b (c ∷ s)) h

  Misses-nil : Misses []
  unfolding found_from
  Misses-nil b = rw (plain.filled b) refl

  Misses-cons :
      (c : ℕ) (s : Text)
      → Misses (c ∷ s)
      → ((b : Option ℕ) → is_nil (ends r (b, c ∷ s)) ≡ true) × Misses s
  unfolding found_from
  Misses-cons c s h = (λ b. ground (arith, h b), Misses-any (some c) s (ground (arith, h none)))

  Misses-here :
      (c : ℕ) (s : Text)
      → ((b : Option ℕ) → is_nil (ends r (b, c ∷ s)) ≡ true)
      → Misses s
      → Misses (c ∷ s)
  unfolding found_from
  Misses-here c s h k b = rw (h b, k (some c)) refl

  Misses-prefix : (u z : Text) → Misses (u ++ z) → Misses u
  Misses-prefix [] z h = Misses-nil
  Misses-prefix (c ∷ u) z h =
      let (here, later) = Misses-cons c (u ++ z) h in
      Misses-here c u (λ b. nil-prefix b (c ∷ u) z (here b)) (Misses-prefix u z later)

  Misses-suffix : (u z : Text) → Misses (u ++ z) → Misses z
  Misses-suffix [] z h = h
  Misses-suffix (c ∷ u) z h = Misses-suffix u z (Misses-cons c (u ++ z) h).1

  Misses-cut :
      (x : ℕ) (u rest : Text) → Avoids x r → Misses u → Misses rest → Misses (u ++ x ∷ rest)
  Misses-cut x [] rest avoids h k =
      Misses-here x rest (λ b. nil-cut x b [] rest avoids (plain.filled b)) k
  Misses-cut x (c ∷ u) rest avoids h k =
      let (here, later) = Misses-cons c u h in
      Misses-here c (u ++ x ∷ rest) (λ b. nil-cut x b (c ∷ u) rest avoids (here b))
        (Misses-cut x u rest avoids later k)

  module _ (inner : Text) (quiet : Misses inner) where
    Misses-bracketed : (u s : Text) → Misses u → Misses s → Misses (u ++ (bracketed inner ++ s))
    Misses-bracketed u s h k = rw (append_assoc inner (b']' ∷ []) s) (
        Misses-cut b'[' u (inner ++ b']' ∷ s) plain.no_open h
          (Misses-cut b']' inner s plain.no_close quiet k))

    -- One step of a replacement.
    Misses-emitted :
        (u s : Text) (c : ℕ) (ts : List Spot) (again : Option ℕ → Text → Text)
        → (ts ≡ [] → Misses (u ++ c ∷ again (some c) s))
        → Misses u
        → ((t : Spot) → Mem t ts → Misses (again t.0 t.1))
        → Misses (u ++ emit_or_replace (bracketed inner) c s ts again)
    unfolding emit_or_replace
    Misses-emitted u s c [] again kept before later = kept refl
    Misses-emitted u s c ((b, t) ∷ ts) again kept before later =
        Misses-bracketed u (again b t) before (later (b, t) (inl refl))

    -- Another replacement in a text where the expression is not found brings none about.
    Misses-replace_from :
        (fuel : ℕ) (r' : Re) (b' : Option ℕ) (u s : Text)
        → Misses (u ++ s)
        → Misses (u ++ replace_from fuel r' (bracketed inner) b' s)
    unfolding replace_from
    Misses-replace_from zero r' b' u s h = h
    Misses-replace_from (suc fuel) r' b' u [] h = h
    Misses-replace_from (suc fuel) r' b' u (c ∷ s) h =
        Misses-emitted u s c (ends r' (b', c ∷ s)) (replace_from fuel r' (bracketed inner))
          (λ _.
            subst Misses
              (append_assoc u (c ∷ []) (replace_from fuel r' (bracketed inner) (some c) s))
              (Misses-replace_from fuel r' (some c) (u ++ c ∷ []) s
                (subst Misses (sym (append_assoc u (c ∷ []) s)) h)))
          (Misses-prefix u (c ∷ s) h)
          (λ t m.
            let (w, e) = ends-IsAfter r' (b', c ∷ s) t m in
            Misses-replace_from fuel r' t.0 [] t.1
              (Misses-suffix w t.1 (subst Misses e (Misses-suffix u (c ∷ s) h))))

    -- No match begins in the text `u` with `s` behind it.
    abbrev Clear : Text → Text → Type 0
    Clear [] s = Unit
    Clear (c ∷ u) s = ((b : Option ℕ) → is_nil (ends r (b, c ∷ (u ++ s))) ≡ true) × Clear u s

    Clear-Misses : (u s : Text) → Clear u s → Misses u
    Clear-Misses [] s h = Misses-nil
    Clear-Misses (c ∷ u) s (here, later) =
        Misses-here c u (λ b. nil-prefix b (c ∷ u) s (here b)) (Clear-Misses u s later)

    Clear-step :
        (u s : Text) (c : ℕ)
        → Clear u (c ∷ s)
        → ((b : Option ℕ) → is_nil (ends r (b, c ∷ s)) ≡ true)
        → Clear (u ++ c ∷ []) s
    Clear-step [] s c h here = (here, tt)
    Clear-step (d ∷ u) s c (first, h) here =
        (λ b. rw (append_assoc u (c ∷ []) s) (first b), Clear-step u s c h here)

    replaced_from-Misses :
        (fuel : ℕ) (b : Option ℕ) (u s : Text)
        → length s ≤ fuel
        → Clear u s
        → Misses (u ++ replace_from fuel r (bracketed inner) b s)
    unfolding replace_from
    replaced_from-Misses zero b u [] le h = rw (append-nil u) (Clear-Misses u [] h)
    replaced_from-Misses zero b u (c ∷ s) le h = absurd (omega (arith, le))
    replaced_from-Misses (suc fuel) b u [] le h = rw (append-nil u) (Clear-Misses u [] h)
    replaced_from-Misses (suc fuel) b u (c ∷ s) le h =
        Misses-emitted u s c (ends r (b, c ∷ s)) (replace_from fuel r (bracketed inner))
          (λ none_here.
            subst Misses
              (append_assoc u (c ∷ []) (replace_from fuel r (bracketed inner) (some c) s))
              (replaced_from-Misses fuel (some c) (u ++ c ∷ []) s (omega (arith, le))
                (Clear-step u s c h (λ b'. ap is_nil (plain.blind b' b (c ∷ s) ∙ none_here)))))
          (Clear-Misses u (c ∷ s) h)
          (λ t m.
            replaced_from-Misses fuel t.0 [] t.1 (omega (arith, le, plain.consumes b c s t m)) tt)

    -- After replacement, the expression is found nowhere.
    pub match_string-replace_all :
        (s : Text) → match_string r (replace_all r s (bracketed inner)) ≡ false
    unfolding match_string replace_all
    match_string-replace_all s = replaced_from-Misses (length s) none [] s (omega arith) tt none

    -- Where the expression is not found, it is not found after a replacement of another one.
    pub match_string-replace_other :
        (r' : Re) (s : Text)
        → match_string r s ≡ false
        → match_string r (replace_all r' s (bracketed inner)) ≡ false
    unfolding match_string replace_all
    match_string-replace_other r' s h =
        Misses-replace_from (length s) r' none [] s (Misses-any none s h) none
