-- ===== src/Domain/Direction.antt =====
-- backend/internal/domain/enums.go: `Direction`, a trade direction. `other s` is a string that is none of its
-- constants; `of_string` is the conversion `Direction(s)`.
use text.Mathlib.TextEquality.{eq_iff}
use crypto_market_advisor.Base.{
  String, [], ◌∷◌, Bool, true, false, ◌≡◌, refl, Option, none, some, if◌then◌else◌, arith,
}
use crypto_market_advisor.Base.Int.{ℤ, pos, negsuc}
use crypto_market_advisor.Base.Names.{named}

pub data Direction : Type 0 where
  long short : Direction
  other : String → Direction

unfoldable pub of_string : String → Direction
of_string s = named s (("LONG", long) ∷ ("SHORT", short) ∷ []) (other s)

unfoldable pub to_string : Direction → String
to_string long = "LONG"
to_string short = "SHORT"
to_string (other s) = s

unfoldable pub valid : Direction → Bool
valid long = true
valid short = true
valid (other s) = false

-- The conversion keeps the string.
pub to_string-of_string : (s : String) → to_string (of_string s) ≡ s
unfolding to_string of_string
to_string-of_string s = ground (arith, eq_iff "LONG" s, eq_iff "SHORT" s)

-- Converting a valid value's string gives the value back.
pub of_string-to_string : (v : Direction) → valid v ≡ true → of_string (to_string v) ≡ v
unfolding to_string of_string valid
of_string-to_string long h = refl
of_string-to_string short h = refl
of_string-to_string (other s) h = cc

-- `Sign`: -1 for a short, and 1 for anything else.
unfoldable pub sign : Direction → ℤ
sign short = negsuc 0
sign _ = pos 1

unfoldable pub is_long : Direction → Bool
is_long long = true
is_long _ = false

unfoldable pub is_short : Direction → Bool
is_short short = true
is_short _ = false

-- `ParseDirection`; `none` is the error.
unfoldable pub parse : String → Option Direction
unfolding of_string valid
parse s = let d = of_string s in if valid d then some d else none
