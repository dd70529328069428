-- ===== src/External/Mux/Paths.antt =====
-- How paths are cut into segments.
use marginpilot.Base.{
  ℕ, Text, Lacks, split_from, ◌≡◌, ap, sym, arith, [], ◌∷◌, ◌++◌, append_assoc, append-nil,
}

-- A text without the separator is the last piece.
pub split_from_last : (c : ℕ) (part s : Text) → Lacks c s → split_from c part s ≡ (part ++ s) ∷ []
unfolding split_from
split_from_last c part [] h = ap (λ (t : Text). t ∷ []) (sym (append-nil part))
split_from_last c part (d ∷ s) (other, h) =
    ground (arith, split_from_last c (part ++ d ∷ []) s h, append_assoc part (d ∷ []) s)

-- A piece ends at the first separator.
pub split_from_next :
    (c : ℕ) (part s rest : Text)
    → Lacks c s
    → split_from c part (s ++ c ∷ rest) ≡ (part ++ s) ∷ split_from c [] rest
unfolding split_from
split_from_next c part [] rest h = ground (arith, append-nil part)
split_from_next c part (d ∷ s) rest (other, h) =
    ground (arith, split_from_next c (part ++ d ∷ []) s rest h, append_assoc part (d ∷ []) s)
