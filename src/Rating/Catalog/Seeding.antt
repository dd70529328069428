-- ===== src/Rating/Catalog/Seeding.antt =====
-- What the catalog holds after it was seeded.
use marginpilot.Base.{
  Text, text_eq, ◌≡◌, refl, ap, ◌∙◌, arith, List, [], ◌∷◌, Option, none, some, if◌then◌else◌, ok,
  bind-ok, continue,
}
use marginpilot.External.Postgres.{Table, IsTable, inserted}
use marginpilot.Rating.Catalog.{Rates, SeedRow, seed, seed_rows, default_model}

-- The first row for a model in a list of rows to insert.
unfoldable pub first_row : Text → List SeedRow → Option Rates
first_row model [] = none
first_row model (p ∷ ps) = if text_eq p.model model then some p.rates else first_row model ps

-- A row that is there wins over the rows to insert.
abbrev pub or_else : Option Rates → Option Rates → Option Rates
or_else (some r) other = some r
or_else none other = other

or_else-inserted :
    (p : SeedRow) (ps : List SeedRow) (model : Text) (old : Option Rates)
    → or_else (inserted p.model p.rates model old) (first_row model ps)
      ≡ or_else old (first_row model (p ∷ ps))
unfolding first_row
or_else-inserted p ps model none = ground arith
or_else-inserted p ps model (some r) = refl

has_default :
    {now : Option Rates} (old : Option Rates)
    → now ≡ or_else old (first_row default_model seed_rows)
    → (r : Rates) × (now ≡ some r)
unfolding first_row seed_rows
has_default (some r) e = (r, e)
has_default none e = (_, e)

module _ {W : Type 0} (prices : Table W Rates) {row : W → Text → Option Rates}
    (laws : IsTable prices row) where
  -- On a table that keeps its laws, a seeding that succeeds keeps every row that was there and
  -- adds, for each model that had none, the first row of the list for it.
  pub row-seed :
      (ps : List SeedRow) (model : Text) (w : W)
      → (seed prices ps w).0 ≡ ok tt
      → row (seed prices ps w).1 model ≡ or_else (row w model) (first_row model ps)
  unfolding seed
  row-seed [] model w h = unfold first_row in ground arith
  row-seed (p ∷ ps) model w h =
      let (u, made, rest) = bind-ok (prices.insert p.model p.rates) _ w h in
      rw (made, continue)
        (row-seed ps model (prices.insert p.model p.rates w).1 rest
          ∙ ap (λ (o : Option Rates). or_else o (first_row model ps))
              (laws.row-insert p.model p.rates model w made)
          ∙ or_else-inserted p ps model (row w model))

  -- On a table that keeps its laws, after a seeding with the built-in rows that succeeds, the
  -- default model has a row.
  row-seed_default :
      (w : W)
      → (seed prices seed_rows w).0 ≡ ok tt
      → (r : Rates) × (row (seed prices seed_rows w).1 default_model ≡ some r)
  row-seed_default w h = has_default (row w default_model) (row-seed seed_rows default_model w h)
