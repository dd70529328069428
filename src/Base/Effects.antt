-- ===== src/Base/Effects.antt =====
-- Fallible effectful code. A Go function `(A, error)` over the outside world `W` is a map from the
-- world to a result and the world that is left: effects made before an error stay made.
use mathlib.Core.Path.{◌≡◌, refl}
use mathlib.Core.Bool.{Bool, true, false}
use mathlib.Core.Logic.{◌⊎◌, inl, inr}
use marginpilot.Base.Strings.{Text}

-- The sentinel errors that the program compares against, its own and its drivers', and all others.
pub data Error : Type 0 where
  unauthorized key_not_found blocked budget_exceeded : Error
  redis_nil no_rows canceled : Error
  failure : Text → Error

pub data Result (A : Type 0) : Type 0 where
  ok : A → Result A
  err : Error → Result A

abbrev pub Proc : Type 0 → Type 0 → Type 0
Proc W A = W → Result A × W

module _ {W A : Type 0} where
  abbrev pub pure : A → Proc W A
  pure a w = (ok a, w)

  abbrev pub raise : Error → Proc W A
  raise e w = (err e, w)

  abbrev pub lift : Result A → Proc W A
  lift r w = (r, w)

  -- An effect that cannot fail, such as a reading of the clock.
  abbrev pub always : (W → A × W) → Proc W A
  always f w = let (a, w') = f w in (ok a, w')

  -- A call whose error is looked at, and not returned.
  abbrev pub attempt : Proc W A → Proc W (Result A)
  attempt m w = let (r, w') = m w in (ok r, w')

module _ {W A B : Type 0} where
  -- What follows a call: `if err != nil { return err }`, else the rest.
  abbrev pub continue : Result A → (A → Proc W B) → Proc W B
  continue (ok a) f w = f a w
  continue (err e) f w = (err e, w)

  infixl 5 ◌>>=◌ ◌>>◌
  abbrev pub ◌>>=◌ : Proc W A → (A → Proc W B) → Proc W B
  ◌>>=◌ m f w = let (r, w') = m w in continue r f w'

  abbrev pub ◌>>◌ : Proc W A → Proc W B → Proc W B
  m >> k = m >>= λ _. k

-- What is made of a client, or the error of making one.
abbrev pub made : {A B : Type 0} → (A → B) → Result A → Result B
made f (ok a) = ok (f a)
made f (err e) = err e

module _ {A : Type 0} where
  -- The error, if any: Go's `err != nil`.
  abbrev pub failed : Result A → Bool
  failed (ok _) = false
  failed (err _) = true

  abbrev pub succeeded : Result A → Bool
  succeeded (ok _) = true
  succeeded (err _) = false

module _ {W A B : Type 0} (P : Result B × W → Type 0) where
  after_continue :
      (r : Result A) (f : A → Proc W B) (w : W)
      → ((a : A) → r ≡ ok a → P (f a w))
      → ((e : Error) → r ≡ err e → P (err e, w))
      → P (continue r f w)
  after_continue (ok a) f w good bad = good a refl
  after_continue (err e) f w good bad = bad e refl

  -- To prove a property of what a sequence does, prove it after each outcome of its first call.
  pub after_bind :
      (m : Proc W A) (f : A → Proc W B) (w : W)
      → ((a : A) → (m w).0 ≡ ok a → P (f a (m w).1))
      → ((e : Error) → (m w).0 ≡ err e → P (err e, (m w).1))
      → P ((m >>= f) w)
  after_bind m f w good bad = after_continue (m w).0 f (m w).1 good bad

module _ {W A B : Type 0} where
  continue-ok :
      (r : Result A) (f : A → Proc W B) (w : W) {b : B}
      → (continue r f w).0 ≡ ok b
      → (a : A) × (r ≡ ok a) × ((f a w).0 ≡ ok b)
  continue-ok (ok a) f w h = (a, refl, h)
  continue-ok (err e) f w h = cc

  -- A sequence that succeeds has succeeded in its first call and in the rest.
  pub bind-ok :
      (m : Proc W A) (f : A → Proc W B) (w : W) {b : B}
      → ((m >>= f) w).0 ≡ ok b
      → (a : A) × ((m w).0 ≡ ok a) × ((f a (m w).1).0 ≡ ok b)
  bind-ok m f w h = continue-ok (m w).0 f (m w).1 h

pub ok-injective : {A : Type 0} {a b : A} → ok a ≡ ok b → a ≡ b
ok-injective e = cc

module _ {W A B : Type 0} where
  -- Two continuations with one result, though they leave different worlds.
  pub continue-same :
      (r : Result A) (f g : A → Proc W B) (w : W)
      → ((a : A) → (f a w).0 ≡ (g a w).0)
      → (continue r f w).0 ≡ (continue r g w).0
  continue-same (ok a) f g w h = h a
  continue-same (err e) f g w h = refl

pub answer-cases :
    {A : Type 0} (r : Result A) → ((a : A) × (r ≡ ok a)) ⊎ ((e : Error) × (r ≡ err e))
answer-cases (ok a) = inl (a, refl)
answer-cases (err e) = inr (e, refl)
