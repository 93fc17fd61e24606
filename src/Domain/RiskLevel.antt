-- ===== src/Domain/RiskLevel.antt =====
-- backend/internal/domain/enums.go: `RiskLevel`, a risk level. `other s` is a string that is none of its
-- constants; `of_string` is the conversion `RiskLevel(s)`.
use text.Mathlib.TextEquality.{eq_iff}
use crypto_market_advisor.Base.{String, [], ◌∷◌, Bool, true, false, ◌≡◌, refl, arith}
use crypto_market_advisor.Base.Names.{named}

pub data RiskLevel : Type 0 where
  low medium high extreme unknown : RiskLevel
  other : String → RiskLevel

unfoldable pub of_string : String → RiskLevel
of_string s =
    named s
      (("low", low)
        ∷ ("medium", medium)
        ∷ ("high", high)
        ∷ ("extreme", extreme)
        ∷ ("unknown", unknown)
        ∷ [])
      (other s)

unfoldable pub to_string : RiskLevel → String
to_string low = "low"
to_string medium = "medium"
to_string high = "high"
to_string extreme = "extreme"
to_string unknown = "unknown"
to_string (other s) = s

unfoldable pub valid : RiskLevel → Bool
valid low = true
valid medium = true
valid high = true
valid extreme = true
valid unknown = false
valid (other s) = false

-- The conversion keeps the string.
pub to_string-of_string : (s : String) → to_string (of_string s) ≡ s
unfolding to_string of_string
to_string-of_string s = ground (
  arith,
  eq_iff "low" s,
  eq_iff "medium" s,
  eq_iff "high" s,
  eq_iff "extreme" s,
  eq_iff "unknown" s,
)

-- Converting a valid value's string gives the value back.
pub of_string-to_string : (v : RiskLevel) → valid v ≡ true → of_string (to_string v) ≡ v
unfolding to_string of_string valid
of_string-to_string low h = refl
of_string-to_string medium h = refl
of_string-to_string high h = refl
of_string-to_string extreme h = refl
of_string-to_string unknown h = refl
of_string-to_string (other s) h = cc
