-- ===== src/Metering/Pricing.antt =====
-- services/metering/internal/pricing/pricing.go and internal/adapter/pricer/builtin.go. Prices are
-- `float64` values, here multiples of 2^-56.
pub mod Agreement
mod Tests
use marginpilot.Base.{ℕ, ◌^◌, Text, codes, text_eq, List, [], ◌∷◌, if◌then◌else◌, ℤ, pos, pure}
use marginpilot.Binary64.{scale, sum, to_int64}
use marginpilot.Metering.Pricer.{Pricer}

-- `price`: micros for a token
pub record TokenPrice : Type 0 where
  pub input : ℤ
  pub output : ℤ

abbrev entry : Text → ℕ → ℕ → Text × TokenPrice
entry model i o = (model, record { input = pos i; output = pos o })

-- `catalog`: 0.15 and 0.60, 2.50 and 10.00, 0.80 and 4.00, 0.10 and 0.10
unfoldable pub catalog : List (Text × TokenPrice)
catalog =
    entry (codes "gpt-4o-mini") 10808639105689190 43234556422756760
    ∷ entry (codes "gpt-4o") 180143985094819840 720575940379279360
    ∷ entry (codes "claude-haiku-4-5") 57646075230342352 288230376151711744
    ∷ entry (codes "echo-1") 7205759403792794 7205759403792794
    ∷ []

-- `fallback`: 1.00 and 3.00
unfoldable pub fallback : TokenPrice
fallback = record { input = pos 72057594037927936; output = pos 216172782113783808 }

-- `catalog[model]`, or else the fallback
unfoldable pub token_price : List (Text × TokenPrice) → Text → TokenPrice
token_price [] model = fallback
token_price ((name, p) ∷ rest) model = if text_eq name model then p else token_price rest model

-- 0.5
abbrev half : ℤ
half = pos (2 ^ 55)

-- `Cost`, from the price of the model
unfoldable pub charge_of : (ℤ → ℤ) → TokenPrice → ℤ → ℤ → ℤ
charge_of out_of_range p input_tokens output_tokens =
    let c = sum (scale input_tokens p.input) (scale output_tokens p.output) in
    to_int64 out_of_range (sum c half)

-- `Cost`
unfoldable pub builtin_cost : (ℤ → ℤ) → Text → ℤ → ℤ → ℤ
builtin_cost out_of_range model input_tokens output_tokens =
    charge_of out_of_range (token_price catalog model) input_tokens output_tokens

-- builtin.go: `Cost`
unfoldable pub builtin_pricer : {W : Type 0} → (ℤ → ℤ) → Pricer W
builtin_pricer out_of_range model i o = pure (builtin_cost out_of_range model i o)
