-- ===== src/External/Mux.antt =====
-- Go's `http.ServeMux`, as far as the services use it: patterns of a method and a path, whose segments
-- are literal or wildcards such as {tenant}; a pattern that ends in a slash matches every path below.
-- A path is as the client wrote it; the unescaping of its segments, `url.PathUnescape`, is a parameter.
pub mod Literals
pub mod Paths
use marginpilot.Base.{
  Text, text_eq, codes, String, is_empty, split, Lacks, ◌≡◌, map, List, [], ◌∷◌, any, Option, none,
  some, Bool, true, false, not, ◌||◌, ◌&&◌, ◌==◌, if◌then◌else◌,
}

pub data Segment : Type 0 where
  literal : Text → Segment
  wild : Text → Segment

pub record Pattern : Type 0 where
  pub method : Text
  pub segments : List Segment
  pub is_subtree : Bool

-- The name in a wildcard, up to the closing brace.
abbrev name_of : Text → Text
name_of [] = []
name_of (c ∷ s) = if c == b'}' then [] else c ∷ name_of s

abbrev segment_of : Text → Segment
segment_of [] = literal []
segment_of (c ∷ s) = if c == b'{' then wild (name_of s) else literal (c ∷ s)

-- The segments of a path, with an empty last one where it ends in a slash.
unfoldable pub segments : Text → List Text
segments [] = []
segments (_ ∷ s) = split b'/' s

-- A pattern whose last segment is empty is a subtree.
abbrev closed : Text → List Text → Pattern
closed method [] = record { method = method; segments = []; is_subtree = false }
closed method (s ∷ []) =
    if is_empty s
    then record { method = method; segments = []; is_subtree = true }
    else record { method = method; segments = segment_of s ∷ []; is_subtree = false }
closed method (s ∷ (t ∷ rest)) =
    let p = closed method (t ∷ rest) in
    record { method = method; segments = segment_of s ∷ p.segments; is_subtree = p.is_subtree }

abbrev of_words : List Text → Pattern
of_words (method ∷ (path ∷ _)) = closed method (segments path)
of_words _ = record { method = []; segments = []; is_subtree = false }

-- "GET /v1/invoice/{tenant}"
unfoldable pub pattern_of : Text → Pattern
unfolding segments
pattern_of t = of_words (split b' ' t)

abbrev pub Params : Type 0
Params = List (Text × Text)

-- `r.PathValue(name)`
unfoldable pub path_value : Params → Text → Text
path_value [] name = []
path_value ((key, v) ∷ ps) name = if text_eq key name then v else path_value ps name

abbrev bind_param : Text → Text → Option Params → Option Params
bind_param name v none = none
bind_param name v (some ps) = if is_empty v then none else some ((name, v) ∷ ps)

unfoldable pub match_segments : Bool → List Segment → List Text → Option Params
match_segments sub [] [] = some []
match_segments sub [] (_ ∷ _) = if sub then some [] else none
match_segments sub (_ ∷ _) [] = none
match_segments sub (literal l ∷ ps) (s ∷ rest) =
    let later = match_segments sub ps rest in if text_eq l s then later else none
match_segments sub (wild name ∷ ps) (s ∷ rest) = bind_param name s (match_segments sub ps rest)

-- GET serves HEAD too.
abbrev allows : Text → Text → Bool
allows pattern_method method =
    text_eq pattern_method method
    || (text_eq pattern_method (codes "GET") && text_eq method (codes "HEAD"))

abbrev pub is_dots : Text → Bool
is_dots s = text_eq s (codes ".") || text_eq s (codes "..")

-- A path with no segments `.` and `..` and no repeated slashes; any other is redirected.
unfoldable pub is_clean : List Text → Bool
is_clean [] = true
is_clean (s ∷ []) = not (is_dots s)
is_clean (s ∷ (t ∷ rest)) = not (is_empty s) && (not (is_dots s) && is_clean (t ∷ rest))

abbrev is_some : Option Params → Bool
is_some none = false
is_some (some _) = true

module _ (H : Type 0) where
  abbrev pub Table : Type 0
  Table = List (Text × H)

  pub data Dispatch : Type 0 where
    found : H → Params → Dispatch
    not_allowed missing redirected : Dispatch

module _ {H : Type 0} where
  abbrev or_later : Bool → Option Params → H → Option (H × Params) → Option (H × Params)
  or_later true (some ps) h later = some (h, ps)
  or_later _ _ _ later = later

  -- The first pattern of the table that serves the request, among those that are subtrees or not.
  unfoldable pub search : Bool → Text → List Text → Table H → Option (H × Params)
  unfolding pattern_of match_segments
  search sub method segs [] = none
  search sub method segs ((t, h) ∷ rest) =
      let p = pattern_of t in
      or_later ((if sub then p.is_subtree else not p.is_subtree) && allows p.method method)
        (match_segments p.is_subtree p.segments segs) h (search sub method segs rest)

  -- A path that some pattern serves with another method.
  unfoldable pub is_known : List Text → Table H → Bool
  unfolding pattern_of match_segments
  is_known segs table =
      any table
        (λ (t, h). is_some (match_segments (pattern_of t).is_subtree (pattern_of t).segments segs))

  abbrev decide : Option (H × Params) → Option (H × Params) → Bool → Dispatch H
  decide (some (h, ps)) _ _ = found h ps
  decide none (some (h, ps)) _ = found h ps
  decide none none known = if known then not_allowed else missing

  -- `ServeHTTP`: an exact pattern is more specific than a subtree. Segments are compared unescaped; a
  -- path that is not clean is redirected, but for CONNECT, whose path is taken as it is.
  unfoldable pub dispatch : (Text → Text) → Table H → Text → Text → Dispatch H
  unfolding search is_known is_clean segments
  dispatch unescape table method path =
      let parts = map unescape (segments path) in
      if text_eq method (codes "CONNECT") || is_clean (segments path)
      then decide (search false method parts table) (search true method parts table)
          (is_known parts table)
      else redirected

-- What the documentation of `url.PathUnescape` says: only a percent sign starts an escape, and every
-- escape stands for a byte.
pub record IsUnescape (unescape : Text → Text) : Type 0 where
  pub plain : (t : Text) → Lacks b'%' t → unescape t ≡ t
  pub filled : (t : Text) → is_empty t ≡ false → is_empty (unescape t) ≡ false
