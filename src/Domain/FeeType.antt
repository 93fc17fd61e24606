-- ===== src/Domain/FeeType.antt =====
-- backend/internal/domain/enums.go: `FeeType`, how a fill was executed. `other s` is a string that is none of its
-- constants; `of_string` is the conversion `FeeType(s)`.
use text.Mathlib.TextEquality.{eq_iff}
use crypto_market_advisor.Base.{String, [], ◌∷◌, Bool, true, false, ◌≡◌, refl, arith}
use crypto_market_advisor.Base.Names.{named}

pub data FeeType : Type 0 where
  maker taker custom : FeeType
  other : String → FeeType

unfoldable pub of_string : String → FeeType
of_string s = named s (("maker", maker) ∷ ("taker", taker) ∷ ("custom", custom) ∷ []) (other s)

unfoldable pub to_string : FeeType → String
to_string maker = "maker"
to_string taker = "taker"
to_string custom = "custom"
to_string (other s) = s

unfoldable pub valid : FeeType → Bool
valid maker = true
valid taker = true
valid custom = true
valid (other s) = false

-- The conversion keeps the string.
pub to_string-of_string : (s : String) → to_string (of_string s) ≡ s
unfolding to_string of_string
to_string-of_string s = ground (arith, eq_iff "maker" s, eq_iff "taker" s, eq_iff "custom" s)

-- Converting a valid value's string gives the value back.
pub of_string-to_string : (v : FeeType) → valid v ≡ true → of_string (to_string v) ≡ v
unfolding to_string of_string valid
of_string-to_string maker h = refl
of_string-to_string taker h = refl
of_string-to_string custom h = refl
of_string-to_string (other s) h = cc
