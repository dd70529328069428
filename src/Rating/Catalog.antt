-- ===== src/Rating/Catalog.antt =====
-- services/rating/internal/catalog/catalog.go. Rates are micros of USD for a million tokens.
pub mod Pricing
pub mod Seeding
use marginpilot.Base.{
  ℕ, zero, suc, Text, codes, text_eq, List, [], ◌∷◌, Option, none, some, Bool, true, false,
  if◌then◌else◌, ℤ, pos, add64, mul64, quot, Proc, Result, Error, ok, err, no_rows, failure, pure,
  raise, lift, attempt, ◌>>=◌, ◌>>◌,
}
use marginpilot.External.Sql.{statement}
use marginpilot.External.Postgres.{Table}

-- The columns of `model_prices` but its key and the time stamp.
pub record Rates : Type 0 where
  pub input : ℤ
  pub output : ℤ

pub record SeedRow : Type 0 where
  pub model : Text
  pub rates : Rates

-- The statement of `Migrate`.
unfoldable pub create_table : Text
create_table = statement (
    "CREATE TABLE IF NOT EXISTS model_prices (" ∷ "    model                  TEXT PRIMARY KEY,"
    ∷ "    input_micros_per_mtok  BIGINT NOT NULL," ∷ "    output_micros_per_mtok BIGINT NOT NULL,"
    ∷ "    updated_at             TIMESTAMPTZ NOT NULL DEFAULT now()" ∷ ")" ∷ [])

-- `Migrate`, over the execution of a statement
unfoldable pub migrate : {W : Type 0} → (Text → Proc W (Unit {0})) → Proc W (Unit {0})
migrate execute = execute create_table

abbrev row : Text → ℕ → ℕ → SeedRow
row model i o = record { model = model; rates = record { input = pos i; output = pos o } }

abbrev pub default_model : Text
default_model = codes "default"

-- `seed`
unfoldable pub seed_rows : List SeedRow
seed_rows =
    row (codes "gpt-4o-mini") 150_000 600_000
    ∷ row (codes "gpt-4o") 2_500_000 10_000_000
    ∷ row (codes "claude-haiku-4-5") 800_000 4_000_000
    ∷ row (codes "echo-1") 100_000 100_000
    ∷ row default_model 1_000_000 3_000_000
    ∷ []

abbrev is_no_rows : Error → Bool
is_no_rows no_rows = true
is_no_rows _ = false

abbrev pub default_missing : Error
default_missing = failure (codes "catalog: default price row missing")

-- What `rates` does with the answer to its query; `again` is its call of itself.
unfoldable pub or_default : {W : Type 0} → Text → Proc W Rates → Result Rates → Proc W Rates
or_default model again (ok r) = pure r
or_default model again (err e) =
    if is_no_rows e
    then (if text_eq model default_model then raise default_missing else again)
    else raise e

-- The sum of `Price`, in `int64` arithmetic, and its division.
unfoldable pub cost : Rates → ℤ → ℤ → ℤ
cost r in_tok out_tok = quot (add64 (mul64 in_tok r.input) (mul64 out_tok r.output)) 1_000_000

module _ {W : Type 0} (prices : Table W Rates) where
  -- `Seed`, over the rows that are left
  unfoldable pub seed : List SeedRow → Proc W (Unit {0})
  seed [] = pure tt
  seed (p ∷ ps) = prices.insert p.model p.rates >> seed ps

  -- `rates`, on fuel for its calls of itself
  unfoldable pub rates : ℕ → Text → Proc W Rates
  unfolding or_default
  rates zero model = raise (failure [])
  rates (suc fuel) model =
      let again = rates fuel default_model in
      do r ← attempt (prices.query model); or_default model again r

  -- `Price`; it calls itself at most once
  unfoldable pub price : Text → ℤ → ℤ → Proc W ℤ
  unfolding rates cost
  price model in_tok out_tok = do r ← rates 2 model; pure (cost r in_tok out_tok)
