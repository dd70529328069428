-- ===== src/External/Sql.antt =====
-- The rows of a query as a driver gives them: each is scanned, which may fail, and at the end the
-- query says whether it was cut short. And the text of a statement of several lines.
use marginpilot.Base.{Text, String, codes, List, [], ◌∷◌, ◌++◌, Result}

pub record Cursor (R : Type 0) : Type 0 where
  pub items : List (Result R)
  pub final : Result (Unit {0})

-- A raw string whose lines each begin with a line break.
abbrev pub statement : List String → Text
statement [] = []
statement (line ∷ rest) = b'\n' ∷ (codes line ++ statement rest)
