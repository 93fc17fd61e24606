-- ===== src/Domain/ManagementActionType.antt =====
-- backend/internal/domain/enums.go: `ManagementActionType`, one change to a position. `other s` is a string that is none of its
-- constants; `of_string` is the conversion `ManagementActionType(s)`.
use text.Mathlib.TextEquality.{eq_iff}
use crypto_market_advisor.Base.{String, [], ◌∷◌, Bool, true, false, ◌≡◌, refl, arith}
use crypto_market_advisor.Base.Names.{named}

pub data ManagementActionType : Type 0 where
  hold close_partial close_full move_stop_loss update_take_profit multiple_changes :
      ManagementActionType
  other : String → ManagementActionType

unfoldable pub of_string : String → ManagementActionType
of_string s =
    named s
      (("HOLD", hold)
        ∷ ("CLOSE_PARTIAL", close_partial)
        ∷ ("CLOSE_FULL", close_full)
        ∷ ("MOVE_STOP_LOSS", move_stop_loss)
        ∷ ("UPDATE_TAKE_PROFIT", update_take_profit)
        ∷ ("MULTIPLE_CHANGES", multiple_changes)
        ∷ [])
      (other s)

unfoldable pub to_string : ManagementActionType → String
to_string hold = "HOLD"
to_string close_partial = "CLOSE_PARTIAL"
to_string close_full = "CLOSE_FULL"
to_string move_stop_loss = "MOVE_STOP_LOSS"
to_string update_take_profit = "UPDATE_TAKE_PROFIT"
to_string multiple_changes = "MULTIPLE_CHANGES"
to_string (other s) = s

unfoldable pub valid : ManagementActionType → Bool
valid hold = true
valid close_partial = true
valid close_full = true
valid move_stop_loss = true
valid update_take_profit = true
valid multiple_changes = true
valid (other s) = false

-- The conversion keeps the string.
pub to_string-of_string : (s : String) → to_string (of_string s) ≡ s
unfolding to_string of_string
to_string-of_string s = ground (
  arith,
  eq_iff "HOLD" s,
  eq_iff "CLOSE_PARTIAL" s,
  eq_iff "CLOSE_FULL" s,
  eq_iff "MOVE_STOP_LOSS" s,
  eq_iff "UPDATE_TAKE_PROFIT" s,
  eq_iff "MULTIPLE_CHANGES" s,
)

-- Converting a valid value's string gives the value back.
pub of_string-to_string : (v : ManagementActionType) → valid v ≡ true → of_string (to_string v) ≡ v
unfolding to_string of_string valid
of_string-to_string hold h = refl
of_string-to_string close_partial h = refl
of_string-to_string close_full h = refl
of_string-to_string move_stop_loss h = refl
of_string-to_string update_take_profit h = refl
of_string-to_string multiple_changes h = refl
of_string-to_string (other s) h = cc
