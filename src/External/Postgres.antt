-- ===== src/External/Postgres.antt =====
-- A table with a primary key, as the program uses one through pgx: a single-row query, which fails
-- with `pgx.ErrNoRows` where no row fits, and an insert with ON CONFLICT DO NOTHING.
pub mod Memory
use marginpilot.Base.{◌≡◌, Text, text_eq, Option, none, some, if◌then◌else◌, Proc, ok, err, no_rows}

pub record Table (W R : Type 0) : Type 0 where
  pub query : Text → Proc W R
  pub insert : Text → R → Proc W (Unit {0})

-- The row under a key after an insert under another key, or it.
abbrev pub inserted : {R : Type 0} → Text → R → Text → Option R → Option R
inserted k v j (some row) = some row
inserted k v j none = if text_eq k j then some v else none

-- `row w k` is the row that the table holds under the key `k`.
pub record IsTable {W R : Type 0} (t : Table W R) (row : W → Text → Option R) : Type 0 where
  pub query-ok : (k : Text) (v : R) (w : W) → (t.query k w).0 ≡ ok v → row w k ≡ some v
  pub query-none : (k : Text) (w : W) → (t.query k w).0 ≡ err no_rows → row w k ≡ none
  pub row-query : (k j : Text) (w : W) → row (t.query k w).1 j ≡ row w j
  pub row-insert :
      (k : Text) (v : R) (j : Text) (w : W)
      → (t.insert k v w).0 ≡ ok tt
      → row (t.insert k v w).1 j ≡ inserted k v j (row w j)
