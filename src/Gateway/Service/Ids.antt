-- ===== src/Gateway/Service/Ids.antt =====
-- The identifiers of usage events.
use marginpilot.Base.{Text, All, length, ◌≡◌, ◌↔◌, arith, ap, sym, ◌∙◌, ok, ok-injective}
use marginpilot.External.Machine.{Machine}
use marginpilot.External.Hex.{IsByte, encode, length-encode, encode-injective}
use marginpilot.Gateway.Service.{new_id}

-- A random source that gives sixteen bytes.
pub record IsSource {W : Type 0} (m : Machine W) : Type 0 where
  pub bytes : (w : W) → All IsByte (m.random w).0
  pub sixteen : (w : W) → length (m.random w).0 ≡ 16

module _ {W : Type 0} (m : Machine W) where
  -- With a random source of sixteen bytes, an identifier has 32 characters, and two identifiers are
  -- equal exactly when they were made of the same random bytes.
  pub new_id-equal :
      (w w' : W) (id id' : Text)
      → IsSource m
      → (new_id m w).0 ≡ ok id
      → (new_id m w').0 ≡ ok id'
      → (length id ≡ 32) × ((id ≡ id') ↔ ((m.random w).0 ≡ (m.random w').0))
  unfolding new_id
  new_id-equal w w' id id' source made made' =
      let of = ok-injective made in
      let of' = ok-injective made' in
      (
        ap (λ (t : Text). length t) (sym of)
            ∙ omega (arith, length-encode (m.random w).0, source.sixteen w),
        (
          (λ same. encode-injective _ _ (source.bytes w) (source.bytes w') (of ∙ same ∙ sym of')),
          (λ same. sym of ∙ ap encode same ∙ of'),
        ),
      )
