-- ===== src/Shared/Config.antt =====
-- shared/config/config.go: the environment is a function from names to values.
use marginpilot.Base.{Text, is_empty, ℤ, Option, none, some, if◌then◌else◌}
use marginpilot.Base.Decimal.{parse_ℤ}

abbrev pub Environ : Type 0
Environ = Text → Option Text

or_fallback : Option Text → Text → Text
or_fallback none fallback = fallback
or_fallback (some v) fallback = if is_empty v then fallback else v

-- `Get`
unfoldable pub get : Environ → Text → Text → Text
unfolding or_fallback
get env key fallback = or_fallback (env key) fallback

parsed_or : Option ℤ → ℤ → ℤ
parsed_or none fallback = fallback
parsed_or (some n) fallback = n

int_or : Option Text → ℤ → ℤ
unfolding parsed_or
int_or none fallback = fallback
int_or (some v) fallback = if is_empty v then fallback else parsed_or (parse_ℤ v) fallback

-- `GetInt`; an `int` has 64 bits here.
unfoldable pub get_int : Environ → Text → ℤ → ℤ
unfolding int_or
get_int env key fallback = int_or (env key) fallback
