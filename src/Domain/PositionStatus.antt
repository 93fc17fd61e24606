-- ===== src/Domain/PositionStatus.antt =====
-- backend/internal/domain/enums.go: `PositionStatus`, the state of a position. `other s` is a string that is none of its
-- constants; `of_string` is the conversion `PositionStatus(s)`.
use text.Mathlib.TextEquality.{eq_iff}
use crypto_market_advisor.Base.{String, [], ◌∷◌, Bool, true, false, ◌≡◌, refl, arith}
use crypto_market_advisor.Base.Names.{named}

pub data PositionStatus : Type 0 where
  is_open partially_closed closed : PositionStatus
  other : String → PositionStatus

unfoldable pub of_string : String → PositionStatus
of_string s =
    named s (("OPEN", is_open) ∷ ("PARTIALLY_CLOSED", partially_closed) ∷ ("CLOSED", closed) ∷ [])
      (other s)

unfoldable pub to_string : PositionStatus → String
to_string is_open = "OPEN"
to_string partially_closed = "PARTIALLY_CLOSED"
to_string closed = "CLOSED"
to_string (other s) = s

unfoldable pub valid : PositionStatus → Bool
valid is_open = true
valid partially_closed = true
valid closed = true
valid (other s) = false

-- The conversion keeps the string.
pub to_string-of_string : (s : String) → to_string (of_string s) ≡ s
unfolding to_string of_string
to_string-of_string s =
    ground (arith, eq_iff "OPEN" s, eq_iff "PARTIALLY_CLOSED" s, eq_iff "CLOSED" s)

-- Converting a valid value's string gives the value back.
pub of_string-to_string : (v : PositionStatus) → valid v ≡ true → of_string (to_string v) ≡ v
unfolding to_string of_string valid
of_string-to_string is_open h = refl
of_string-to_string partially_closed h = refl
of_string-to_string closed h = refl
of_string-to_string (other s) h = cc
