-- ===== src/External/Postgres/Memory.antt =====
-- A table in memory, as a function from keys to rows, that never fails. It is one instance of the
-- interface and meets its laws.
use marginpilot.Base.{◌≡◌, refl, Text, Option, none, some, Result, ok, err, no_rows}
use marginpilot.External.Postgres.{Table, IsTable, inserted}

abbrev pub Rows : Type 0 → Type 0
Rows R = Text → Option R

module _ {R : Type 0} where
  abbrev row_or_error : Option R → Result R
  row_or_error none = err no_rows
  row_or_error (some r) = ok r

  abbrev pub memory_table : Table (Rows R) R
  memory_table = record {
    query = λ k w. (row_or_error (w k), w);
    insert = λ k v w. (ok tt, λ j. inserted k v j (w j));
  }

  row_or_error-ok : (o : Option R) {v : R} → row_or_error o ≡ ok v → o ≡ some v
  row_or_error-ok none e = cc
  row_or_error-ok (some v) e = cc

  row_or_error-none : (o : Option R) → row_or_error o ≡ err no_rows → o ≡ none
  row_or_error-none none e = refl
  row_or_error-none (some v) e = cc

  -- The laws are met, so they can be assumed together.
  pub memory_table-IsTable : IsTable memory_table (λ w. w)
  memory_table-IsTable = record {
    query-ok = λ k v w e. row_or_error-ok (w k) e;
    query-none = λ k w e. row_or_error-none (w k) e;
    row-query = λ k j w. refl;
    row-insert = λ k v j w e. refl;
  }
