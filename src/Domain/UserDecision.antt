-- ===== src/Domain/UserDecision.antt =====
-- backend/internal/domain/enums.go: `UserDecision`, what the user did with a recommendation. `other s` is a string that is none of its
-- constants; `of_string` is the conversion `UserDecision(s)`.
use text.Mathlib.TextEquality.{eq_iff}
use crypto_market_advisor.Base.{String, [], ◌∷◌, Bool, true, false, ◌≡◌, refl, arith}
use crypto_market_advisor.Base.Names.{named}

pub data UserDecision : Type 0 where
  pending opened skipped ignored expired : UserDecision
  other : String → UserDecision

unfoldable pub of_string : String → UserDecision
of_string s =
    named s
      (("PENDING", pending)
        ∷ ("OPENED", opened)
        ∷ ("SKIPPED", skipped)
        ∷ ("IGNORED", ignored)
        ∷ ("EXPIRED", expired)
        ∷ [])
      (other s)

unfoldable pub to_string : UserDecision → String
to_string pending = "PENDING"
to_string opened = "OPENED"
to_string skipped = "SKIPPED"
to_string ignored = "IGNORED"
to_string expired = "EXPIRED"
to_string (other s) = s

unfoldable pub valid : UserDecision → Bool
valid pending = true
valid opened = true
valid skipped = true
valid ignored = true
valid expired = true
valid (other s) = false

-- The conversion keeps the string.
pub to_string-of_string : (s : String) → to_string (of_string s) ≡ s
unfolding to_string of_string
to_string-of_string s = ground (
  arith,
  eq_iff "PENDING" s,
  eq_iff "OPENED" s,
  eq_iff "SKIPPED" s,
  eq_iff "IGNORED" s,
  eq_iff "EXPIRED" s,
)

-- Converting a valid value's string gives the value back.
pub of_string-to_string : (v : UserDecision) → valid v ≡ true → of_string (to_string v) ≡ v
unfolding to_string of_string valid
of_string-to_string pending h = refl
of_string-to_string opened h = refl
of_string-to_string skipped h = refl
of_string-to_string ignored h = refl
of_string-to_string expired h = refl
of_string-to_string (other s) h = cc
