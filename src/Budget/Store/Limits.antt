-- ===== src/Budget/Store/Limits.antt =====
-- Reading and writing a customer's limit.
use marginpilot.Base.{
  Text, codes, text_eq, text_eq_iff, Lacks, split_at, prefix_cancel, ◌≡◌, ◌↔◌, ◌⊎◌, refl, sym, ap,
  ◌∙◌, arith, Option, none, some, inl, inr, Bool-cases, ℤ, IsInt64, Result, ok, err, redis_nil,
}
use marginpilot.Base.Decimal.{print_ℤ}
use marginpilot.External.Redis.{Redis, IsRedis, counter, counter-print_ℤ}
use marginpilot.External.Machine.{Machine}
use marginpilot.Budget.Store.{limit_key, get_int, limit, set_limit, as_int}

as_int-ok :
    (v : Result Text) {n : ℤ} (held : Option Text)
    → ((s : Text) → v ≡ ok s → held ≡ some s)
    → (v ≡ err redis_nil → held ≡ none)
    → as_int v ≡ ok n
    → counter held ≡ n
unfolding as_int counter
as_int-ok (ok s) held good gone h = rw (good s refl) (ground arith)
as_int-ok (err redis_nil) held good gone h = rw (gone refl) (ground arith)
as_int-ok (err _) held good gone h = cc

limit_key_iff :
    (a b c d : Text)
    → Lacks b':' a
    → Lacks b':' c
    → (limit_key a b ≡ limit_key c d) ↔ ((a ≡ c) × (b ≡ d))
unfolding limit_key
limit_key_iff a b c d ha hc = (
  (λ e. split_at b':' a c b d ha hc (prefix_cancel (codes "limit:") _ _ e)),
  (λ (tenants, customers). rw (tenants, customers) refl),
)

module _ {W : Type 0} (r : Redis W) {lookup : W → Text → Option Text}
    (laws : IsRedis r lookup) where
  -- A successful read returns the number that the key holds, 0 where it is absent.
  pub get_int-ok :
      (key : Text) (w : W) {n : ℤ}
      → (m : Machine W) → (get_int r m key w).0 ≡ ok n
      → counter (lookup w key) ≡ n
  unfolding get_int
  get_int-ok key w m h =
      as_int-ok (r.get key w).0 (lookup w key) (λ s e. laws.get-ok key s w e) (laws.get-nil key w) h

  module _ (m : Machine W) where
    -- On a Redis that keeps its laws, after a limit that fits an `int64` was stored, a successful
    -- read of any customer's limit returns the stored limit for that customer and the number that
    -- its key held before for every other one, if neither tenant has a colon.
    pub limit-set_limit :
        (a b c d : Text) (micros n : ℤ) (w : W)
        → Lacks b':' a
        → Lacks b':' c
        → IsInt64 micros
        → (set_limit r m a b micros w).0 ≡ ok tt
        → (limit r m c d (set_limit r m a b micros w).1).0 ≡ ok n
        → ((a ≡ c) × (b ≡ d) × (n ≡ micros))
          ⊎ ((¬ ((a ≡ c) × (b ≡ d))) × (n ≡ counter (lookup w (limit_key c d))))
    unfolding set_limit limit
    limit-set_limit a b c d micros n w ha hc fits stored read =
        let held = get_int-ok (limit_key c d) _ m read in
        let now_held =
          laws.lookup-set (limit_key a b) (print_ℤ micros) 0 (limit_key c d) w stored in
        elim (Bool-cases (text_eq (limit_key a b) (limit_key c d))) [
          | inl same ↦
              let (tenants, customers) =
                (limit_key_iff a b c d ha hc).0 ((text_eq_iff _ _).0 same) in
              inl (
                tenants,
                customers,
                sym held ∙ ap counter (rw same at now_held) ∙ counter-print_ℤ micros fits,
              )
          | inr other ↦ inr (
            (λ both. cc (other, (text_eq_iff _ _).1 ((limit_key_iff a b c d ha hc).1 both))),
            sym held ∙ ap counter (rw other at now_held),
          )
        ]
