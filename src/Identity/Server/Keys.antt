-- ===== src/Identity/Server/Keys.antt =====
-- What a gateway that asks the identity service learns of a key.
use marginpilot.Base.{
  Text, text_eq, text_eq_iff, ◌≡◌, ◌≢◌, ◌⊎◌, ◌↔◌, inl, inr, refl, sym, ap, ◌∙◌, arith, Option, none,
  some, true, Result, ok, err, no_rows, bind-ok, ok-injective,
}
use marginpilot.External.Postgres.{Table, IsTable, inserted}
use marginpilot.Contract.Identity.{ResolveResponse}
use marginpilot.Identity.Store.{Caller, found}
use marginpilot.Identity.Store
use marginpilot.Identity.Server.{resolve, response}

found-ok :
    (out : Result Caller) (held : Option Caller) {r : Option Caller}
    → ((c : Caller) → out ≡ ok c → held ≡ some c)
    → (out ≡ err no_rows → held ≡ none)
    → found out ≡ ok r
    → r ≡ held
unfolding found
found-ok (ok c) held hit miss h = ground (arith, hit c refl)
found-ok (err no_rows) held hit miss h = ground (arith, miss refl)
found-ok (err _) held hit miss h = cc

module _ {W : Type 0} (hash : Text → Text) (keys : Table W Caller) {row : W → Text → Option Caller}
    (laws : IsTable keys row) where
  -- An answer of the service is the row of the key's hash, and "not found" where there is none.
  pub resolve-ok :
      (key : Text) (w : W) {resp : ResolveResponse}
      → (resolve hash keys (record { api_key = key }) w).0 ≡ ok resp
      → resp ≡ response (row w (hash key))
  unfolding resolve Store.resolve
  resolve-ok key w h =
      let (r, read, answer) = bind-ok (Store.resolve hash keys key) _ w h in
      let same =
        found-ok (keys.query (hash key) w).0 (row w (hash key))
          (λ c e. laws.query-ok (hash key) c w e) (laws.query-none (hash key) w) read in
      sym (ok-injective answer) ∙ ap response same

  -- On a table that keeps its laws, after a key was seeded, an answered lookup of a key with the
  -- same hash gives the caller that the hash had before, or, if it had none, the caller that was
  -- seeded; and the lookup of a key with another hash gives what the table held before.
  pub resolve-seed :
      (key other : Text) (c : Caller) (w : W) (resp : ResolveResponse)
      → (Store.seed hash keys key c.tenant_id c.customer_id c.feature w).0 ≡ ok tt
      → (resolve hash keys
          (record { api_key = other })
          (Store.seed hash keys key c.tenant_id c.customer_id c.feature w).1).0
        ≡ ok resp
      → ((hash key ≢ hash other) × (resp ≡ response (row w (hash other))))
        ⊎ ((r : Caller) × (row w (hash other) ≡ some r) × (resp ≡ response (some r)))
        ⊎ ((hash key ≡ hash other) × (row w (hash other) ≡ none) × (resp ≡ response (some c)))
  unfolding Store.seed
  resolve-seed key other c w resp stored asked =
      let answer = resolve-ok other _ asked in
      let held = laws.row-insert (hash key) c (hash other) w stored in
      by_row (text_eq_iff (hash key) (hash other)) (row w (hash other)) refl
        (answer ∙ ap response held)
    where
      by_row :
          (text_eq (hash key) (hash other) ≡ true) ↔ (hash key ≡ hash other)
          → (old : Option Caller) → row w (hash other) ≡ old
          → resp ≡ response (inserted (hash key) c (hash other) old)
          → ((hash key ≢ hash other) × (resp ≡ response (row w (hash other))))
            ⊎ ((r : Caller) × (row w (hash other) ≡ some r) × (resp ≡ response (some r)))
            ⊎ ((hash key ≡ hash other) × (row w (hash other) ≡ none) × (resp ≡ response (some c)))
      by_row same (some r) e h = inr (inl (r, e, h))
      by_row same none e h = ground arith
