-- ===== src/Budget/Store/Window.antt =====
-- The fixed window rate limiter: within one window a customer gets at most 120 requests through.
use marginpilot.Base.{
  ℕ, ◌+◌, ◌≤◌, ◌<◌, Text, text_eq_refl, ◌≡◌, ◌⊎◌, refl, ap, ◌∙◌, arith, List, [], ◌∷◌, Option, none,
  some, Bool, true, false, inl, inr, Bool-cases, ℤ, pos, ◌+ℤ◌, pos-+ℤ, leb_ℤ, eqb_ℤ, Result, Error,
  ok, err, after_bind,
}
use marginpilot.Base.Decimal.{print_ℤ}
use marginpilot.External.Redis.{Redis, IsRedis, counter, counter-print_ℤ}
use marginpilot.External.Machine.{Machine}
use marginpilot.Budget.Store.{bucket, rate_key, first_hit, allow_rate, rate_max, rate_window}

-- 1 for a request that passes
pub granted : Result Bool → ℕ
granted (ok true) = 1
granted (ok false) = 0
granted (err _) = 0

granted-le : (passed : Bool) (k : ℕ) → granted (ok passed) + k ≤ k + 1
unfolding granted
granted-le passed k = ground arith

granted-cap : (k : ℕ) → (granted (ok (leb_ℤ (pos (k + 1)) rate_max)) ≡ 0) ⊎ (k < 120)
unfolding granted
granted-cap k = ground arith

granted_le_one : (out : Result Bool) → granted out ≤ 1
unfolding granted
granted_le_one (ok true) = omega arith
granted_le_one (ok false) = omega arith
granted_le_one (err _) = omega arith

module _ {W : Type 0} (r : Redis W) (m : Machine W) (lookup : W → Text → Option Text)
    (laws : IsRedis r lookup) where
  pub first_hit-keeps :
      (key : Text) (n : ℤ) (j : Text) (w : W)
      → ((first_hit r m key n w).0 ≡ ok tt) × (lookup (first_hit r m key n w).1 j ≡ lookup w j)
  unfolding first_hit
  first_hit-keeps key n j w = elim (Bool-cases (eqb_ℤ n (pos 1))) [
    | inl first ↦ rw first (refl, laws.lookup-expire key rate_window j w)
    | inr later ↦ rw later (refl, refl)
  ]

  module _ (tenant customer : Text) (b : ℤ) where
    abbrev key : Text
    key = rate_key tenant customer b

    abbrev hits : W → ℤ
    hits w = counter (lookup w key)

    -- What one request does to the counter, at `k` before it: a request that passes was counted and
    -- found the counter below the cap.
    abbrev Counted : ℕ → Result Bool × W → Type 0
    Counted k out =
        (k' : ℕ) × (hits out.1 ≡ pos k')
        × (granted out.0 + k ≤ k')
        × ((granted out.0 ≡ 0) ⊎ (k < 120))

    hits-incr :
        (w : W) (k : ℕ) (n : ℤ)
        → hits w ≡ pos k
        → (r.incr key w).0 ≡ ok n
        → (n ≡ pos (k + 1)) × (hits (r.incr key w).1 ≡ pos (k + 1))
    hits-incr w k n before e =
        let e' = rw laws.incr_lem at e in
        let (sum, fits) = laws.incr_by-ok key (pos 1) n w e' in
        let exact : n ≡ pos (k + 1) = sum ∙ ap (λ (z : ℤ). z +ℤ pos 1) before ∙ pos-+ℤ k 1 in
        let left : lookup (r.incr key w).1 key ≡ some (print_ℤ n) =
          rw laws.incr_lem (rw text_eq_refl at (laws.lookup-incr_by key (pos 1) n key w e')) in
        (exact, ap counter left ∙ counter-print_ℤ n fits ∙ exact)

    hits-incr_err :
        (w : W) (k : ℕ) (e : Error)
        → hits w ≡ pos k
        → (r.incr key w).0 ≡ err e
        → Counted k (err e, (r.incr key w).1)
    unfolding granted
    hits-incr_err w k e before h = elim (laws.incr-err key w e h) [
      | inl kept ↦ (k, ap counter kept ∙ before, omega arith, inl refl)
      | inr (fits, made) ↦ (
        k + 1,
        ap counter made ∙ counter-print_ℤ _ fits ∙ ap (λ (z : ℤ). z +ℤ pos 1) before ∙ pos-+ℤ k 1,
        omega arith,
        inl refl,
      )
    ]

    Counted-ok :
        (w : W) (k : ℕ) (n : ℤ)
        → n ≡ pos (k + 1)
        → hits w ≡ pos (k + 1)
        → Counted k (ok (leb_ℤ n rate_max), w)
    Counted-ok w k n exact after =
        rw exact (k + 1, after, granted-le (leb_ℤ (pos (k + 1)) rate_max) k, granted-cap k)

    step-Counted :
        (w : W) (k : ℕ)
        → ((w' : W) → lookup (m.now w').1 key ≡ lookup w' key)
        → bucket (m.now w).0 ≡ b
        → hits w ≡ pos k
        → Counted k (allow_rate r m tenant customer w)
    unfolding allow_rate
    step-Counted w k quiet in_window before =
        let w₁ = (m.now w).1 in
        let start : hits w₁ ≡ pos k = ap counter (quiet w) ∙ before in
        rw in_window (
          after_bind (Counted k) (r.incr key) _ w₁
            (λ n e.
              let (exact, after) = hits-incr w₁ k n start e in
              let w₂ = (r.incr key w₁).1 in
              after_bind (Counted k) (first_hit r m key n) _ w₂
                (λ _ _.
                  Counted-ok _ k n exact (ap counter ((first_hit-keeps key n key w₂).1) ∙ after))
                (λ e' h. cc (h, (first_hit-keeps key n key w₂).0)))
            (λ e h. hits-incr_err w₁ k e start h))

    -- The customer's requests with, before each, what else happens in the world: other requests and
    -- metering, which leave this counter alone, and the time, which stays in the window.
    abbrev pub InWindow : List (W → W) → W → Type 0
    InWindow [] w = Unit
    InWindow (f ∷ fs) w =
        (bucket (m.now (f w)).0 ≡ b)
        × (lookup (f w) key ≡ lookup w key)
        × InWindow fs (allow_rate r m tenant customer (f w)).1

    -- How many of these requests pass.
    abbrev pub passed : List (W → W) → W → ℕ
    passed [] w = 0
    passed (f ∷ fs) w =
        let (out, w') = allow_rate r m tenant customer (f w) in granted out + passed fs w'

    passed-le :
        (fs : List (W → W)) (w : W) (k : ℕ)
        → ((w' : W) → lookup (m.now w').1 key ≡ lookup w' key)
        → InWindow fs w
        → hits w ≡ pos k
        → (passed fs w ≡ 0) ⊎ (passed fs w + k ≤ 120)
    passed-le [] w k quiet inside start = inl refl
    passed-le (f ∷ fs) w k quiet (time, alone, inside) start =
        let (k', after, moved, below) =
          step-Counted (f w) k quiet time (ap counter alone ∙ start) in
        let rest = passed-le fs _ k' quiet inside after in
        let one = granted_le_one (allow_rate r m tenant customer (f w)).0 in omega arith

    -- On a Redis that keeps its laws, of the requests of a customer in one window at most 120
    -- pass, if the window begins with no counter, and the clock and what happens between the
    -- requests leave the counter alone. Increments may fail.
    pub passed-le-cap :
        (fs : List (W → W)) (w : W)
        → ((w' : W) → lookup (m.now w').1 key ≡ lookup w' key)
        → InWindow fs w
        → lookup w key ≡ none
        → passed fs w ≤ 120
    passed-le-cap fs w quiet inside fresh =
        omega (arith, passed-le fs w 0 quiet inside (unfold counter in ap counter fresh))
