-- ===== src/Identity/Store.antt =====
-- services/identity/internal/adapter/pgstore/pgstore.go. SHA-256, which gives bytes, is a parameter.
use marginpilot.Base.{
  Text, [], ◌∷◌, Option, none, some, Bool, true, false, if◌then◌else◌, Proc, Result, Error, ok, err,
  no_rows, lift, attempt, ◌>>=◌,
}
use marginpilot.External.Sql.{statement}
use marginpilot.External.Hex
use marginpilot.External.Postgres.{Table}

-- `Record`: the columns of `virtual_keys` but its key.
pub record Caller : Type 0 where
  pub tenant_id : Text
  pub customer_id : Text
  pub feature : Text

-- The statement of `Migrate`.
unfoldable pub create_table : Text
create_table = statement (
    "CREATE TABLE IF NOT EXISTS virtual_keys (" ∷ "    key_hash    TEXT PRIMARY KEY,"
    ∷ "    tenant_id   TEXT NOT NULL," ∷ "    customer_id TEXT NOT NULL,"
    ∷ "    feature     TEXT NOT NULL DEFAULT 'default',"
    ∷ "    created_at  TIMESTAMPTZ NOT NULL DEFAULT now()" ∷ ")" ∷ [])

-- `Migrate`, over the execution of a statement
unfoldable pub migrate : {W : Type 0} → (Text → Proc W (Unit {0})) → Proc W (Unit {0})
migrate execute = execute create_table

-- `Hash`
unfoldable pub hash_key : (Text → Text) → Text → Text
hash_key sha256 api_key = Hex.encode (sha256 api_key)

is_no_rows : Error → Bool
is_no_rows no_rows = true
is_no_rows _ = false

-- The record and whether it was found, as an option.
unfoldable pub found : Result Caller → Result (Option Caller)
unfolding is_no_rows
found (ok r) = ok (some r)
found (err e) = if is_no_rows e then ok none else err e

module _ {W : Type 0} (hash : Text → Text) (keys : Table W Caller) where
  -- `Seed`
  unfoldable pub seed : Text → Text → Text → Text → Proc W (Unit {0})
  seed api_key tenant customer feature =
      keys.insert (hash api_key)
        (record { tenant_id = tenant; customer_id = customer; feature = feature })

  -- `Resolve`
  unfoldable pub resolve : Text → Proc W (Option Caller)
  unfolding found
  resolve api_key = do r ← attempt (keys.query (hash api_key)); lift (found r)
