-- ===== src/System/Demo.antt =====
-- The dashboard's simulated request at a gateway whose identity service has seeded the demo keys:
-- dashboard, gateway and identity together.
use marginpilot.Base.{
  Error, is_empty, ◌⊎◌, Text, codes, ◌++◌, text_eq, text_eq_refl, strip_prefix, trim_space,
  text_eq-false, ◌≡◌, ◌≢◌, refl, sym, ap, ◌∙◌, Option, none, some, false, Bool-cases, inl, inr,
  if◌then◌else◌, Result, ok, err, continue,
}
use marginpilot.External.Postgres.{Table, IsTable, inserted}
use marginpilot.Contract.Identity.{ResolveRequest, ResolveResponse}
use marginpilot.Identity.Store.{Caller}
use marginpilot.Identity.Store
use marginpilot.Identity.Server.{resolve, response}
use marginpilot.Identity.Server.Keys.{resolve-ok}
use marginpilot.Gateway.Domain
use marginpilot.Gateway.Adapters.{identity_resolve}
use marginpilot.Gateway.Http.{Request, bearer, resolve_caller}
use marginpilot.Startup.Wiring.{seed_keys}
use marginpilot.Dashboard.{key_for, simulate_request}

abbrev acme : Caller
acme = record {
  tenant_id = codes "demo-tenant";
  customer_id = codes "acme-inc";
  feature = codes "default";
}

abbrev north : Caller
north = record {
  tenant_id = codes "northwind";
  customer_id = codes "north-sales";
  feature = codes "default";
}

-- Whom a simulated request is made for.
abbrev pub demo_caller : Text → Caller
demo_caller tenant = if text_eq tenant (codes "northwind") then north else acme

-- The caller of the gateway, from the record that the identity service keeps.
abbrev pub as_caller : Caller → Domain.Caller
as_caller c = record { tenant_id = c.tenant_id; customer_id = c.customer_id; feature = c.feature }

bearer-key_for : (tenant : Text) → bearer (codes "Bearer " ++ key_for tenant) ≡ key_for tenant
unfolding bearer key_for strip_prefix trim_space
bearer-key_for tenant = elim (Bool-cases (text_eq tenant (codes "northwind"))) [
  | inl p ↦ rw p refl
  | inr p ↦ rw p refl
]

key_for-full : (tenant : Text) → is_empty (key_for tenant) ≡ false
unfolding key_for
key_for-full tenant = elim (Bool-cases (text_eq tenant (codes "northwind"))) [
  | inl p ↦ rw p refl
  | inr p ↦ rw p refl
]

some-injective : {A : Type 0} {a b : A} → some a ≡ some b → a ≡ b
some-injective e = cc

module _ {W : Type 0} (hash : Text → Text) (keys : Table W Caller) {row : W → Text → Option Caller}
    (laws : IsTable keys row) where
  abbrev after_acme : W → Result (Unit {0}) × W
  after_acme w = keys.insert (hash (codes "sk-demo")) acme w

  abbrev after_north : W → Result (Unit {0}) × W
  after_north w = keys.insert (hash (codes "sk-north")) north (after_acme w).1

  -- A table without the two keys, of which the two inserts succeed.
  pub record IsFresh (w : W) : Type 0 where
    pub distinct : hash (codes "sk-demo") ≢ hash (codes "sk-north")
    pub no_acme : row w (hash (codes "sk-demo")) ≡ none
    pub no_north : row w (hash (codes "sk-north")) ≡ none
    pub acme_seeded : (after_acme w).0 ≡ ok tt
    pub north_seeded : (after_north w).0 ≡ ok tt

  row-seed_keys :
      (w : W) (k : Text)
      → IsFresh w
      → row (seed_keys hash keys w).1 k
        ≡ inserted
            (hash (codes "sk-north"))
            north
            k
            (inserted (hash (codes "sk-demo")) acme k (row w k))
  unfolding seed_keys Store.seed
  row-seed_keys w k fresh =
      laws.row-insert (hash (codes "sk-north")) north k (after_acme w).1 fresh.north_seeded
      ∙ ap (inserted (hash (codes "sk-north")) north k)
          (laws.row-insert (hash (codes "sk-demo")) acme k w fresh.acme_seeded)

  row-key_for :
      (w : W) (tenant : Text)
      → IsFresh w
      → row (seed_keys hash keys w).1 (hash (key_for tenant)) ≡ some (demo_caller tenant)
  unfolding key_for
  row-key_for w tenant fresh = elim (Bool-cases (text_eq tenant (codes "northwind"))) [
    | inl p ↦ rw p (
        row-seed_keys w (hash (codes "sk-north")) fresh
        ∙ rw
            (
              fresh.no_north,
              text_eq-false _ _ fresh.distinct,
              text_eq_refl (hash (codes "sk-north")),
            )
            refl)
    | inr p ↦ rw p (
        row-seed_keys w (hash (codes "sk-demo")) fresh
        ∙ rw (fresh.no_acme, text_eq_refl (hash (codes "sk-demo"))) refl)
  ]

  abbrev pub ask : ResolveRequest → W → Result ResolveResponse × W
  ask = resolve hash keys

  -- What the gateway makes of the answer of the identity service.
  resolved :
      (tenant : Text) (w : W) (out : Result ResolveResponse)
      → (ask (record { api_key = key_for tenant }) w).0 ≡ out
      → ((resp : ResolveResponse) → out ≡ ok resp → resp ≡ response (some (demo_caller tenant)))
      → ((identity_resolve ask (key_for tenant) w).0 ≡ ok (as_caller (demo_caller tenant)))
        ⊎ ((e : Error) × (out ≡ err e) × ((identity_resolve ask (key_for tenant) w).0 ≡ err e))
  unfolding identity_resolve response
  resolved tenant w (ok resp) h held = inl (rw (h, continue, held resp refl) refl)
  resolved tenant w (err e) h held = inr (e, refl, rw (h, continue) refl)

  -- A gateway with an identity service whose table keeps its laws and was fresh when the demo keys
  -- were seeded: a request that carries the authorization of the dashboard's simulated request is
  -- one of northwind's customer if it was simulated for that tenant, and one of the demo tenant's
  -- customer whatever other tenant it was simulated for, or the identity service has failed.
  pub simulate-Caller :
      (gateway tenant time : Text) (r : Request) (w : W)
      → IsFresh w
      → (simulate_request gateway tenant time).authorization
        ≡ some (r.header (codes "Authorization"))
      → (let after = (seed_keys hash keys w).1 in
          (((resolve_caller (some (identity_resolve ask)) r after).0
              ≡ ok (as_caller (demo_caller tenant)))
            ⊎ ((e : Error) × ((ask (record { api_key = key_for tenant }) after).0 ≡ err e)
                × ((resolve_caller (some (identity_resolve ask)) r after).0 ≡ err e))))
  unfolding simulate_request resolve_caller
  simulate-Caller gateway tenant time r w fresh sent =
      let after = (seed_keys hash keys w).1 in
      let same : bearer (r.header (codes "Authorization")) ≡ key_for tenant =
        ap bearer (sym (some-injective sent)) ∙ bearer-key_for tenant in
      rw (same, key_for-full tenant)
        (resolved tenant after (ask (record { api_key = key_for tenant }) after).0 refl (λ resp h.
          resolve-ok hash keys laws (key_for tenant) after h
          ∙ ap response (row-key_for w tenant fresh)))
