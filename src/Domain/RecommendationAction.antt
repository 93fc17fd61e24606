-- ===== src/Domain/RecommendationAction.antt =====
-- backend/internal/domain/enums.go: `RecommendationAction`, the decision of the model. `other s` is a string that is none of its
-- constants; `of_string` is the conversion `RecommendationAction(s)`.
use text.Mathlib.TextEquality.{eq_iff}
use crypto_market_advisor.Base.{
  String, [], ◌∷◌, Bool, true, false, ◌≡◌, refl, Option, none, some, if◌then◌else◌, arith,
}
use crypto_market_advisor.Base.Names.{named}
use crypto_market_advisor.Domain.Direction.{Direction, long, short}

pub data RecommendationAction : Type 0 where
  open_long open_short no_action manage : RecommendationAction
  other : String → RecommendationAction

unfoldable pub of_string : String → RecommendationAction
of_string s =
    named s
      (("OPEN_LONG", open_long)
        ∷ ("OPEN_SHORT", open_short)
        ∷ ("NO_ACTION", no_action)
        ∷ ("MANAGE_POSITION", manage)
        ∷ [])
      (other s)

unfoldable pub to_string : RecommendationAction → String
to_string open_long = "OPEN_LONG"
to_string open_short = "OPEN_SHORT"
to_string no_action = "NO_ACTION"
to_string manage = "MANAGE_POSITION"
to_string (other s) = s

unfoldable pub valid : RecommendationAction → Bool
valid open_long = true
valid open_short = true
valid no_action = true
valid manage = true
valid (other s) = false

-- The conversion keeps the string.
pub to_string-of_string : (s : String) → to_string (of_string s) ≡ s
unfolding to_string of_string
to_string-of_string s = ground (
  arith,
  eq_iff "OPEN_LONG" s,
  eq_iff "OPEN_SHORT" s,
  eq_iff "NO_ACTION" s,
  eq_iff "MANAGE_POSITION" s,
)

-- Converting a valid value's string gives the value back.
pub of_string-to_string : (v : RecommendationAction) → valid v ≡ true → of_string (to_string v) ≡ v
unfolding to_string of_string valid
of_string-to_string open_long h = refl
of_string-to_string open_short h = refl
of_string-to_string no_action h = refl
of_string-to_string manage h = refl
of_string-to_string (other s) h = cc

unfoldable pub is_entry : RecommendationAction → Bool
is_entry open_long = true
is_entry open_short = true
is_entry _ = false

-- `Direction`, with the `ok` of its second result.
unfoldable pub direction : RecommendationAction → Direction × Bool
direction open_long = (long, true)
direction open_short = (short, true)
direction _ = (Direction.other "", false)

-- `ParseAction`; `none` is the error.
unfoldable pub parse : String → Option RecommendationAction
unfolding of_string valid
parse s = let a = of_string s in if valid a then some a else none
