-- ===== src/Llm/Numbers.antt =====
-- backend/internal/llm/validate.go: `validateConfidence`, `validateAllocation`, `validateLeverage`. A
-- check returns its value and the problem that it adds, if it adds one.
use crypto_market_advisor.Base.{not, ◌&&◌, ◌||◌, if◌then◌else◌, Option, none, some}
use crypto_market_advisor.Base.Int.{ℤ, pos}
use crypto_market_advisor.Numbers.Decimal.{Decimal, nought}
use crypto_market_advisor.Numbers.Float.{Float, Conversion, int, is_finite}
use crypto_market_advisor.Domain.RecommendationAction
use crypto_market_advisor.Domain.RecommendationAction.{RecommendationAction}
use crypto_market_advisor.Llm.Problems.{
  Problem, confidence_required, confidence_not_finite, confidence_range, allocation_required,
  allocation_not_finite, allocation_not_positive, allocation_range, leverage_required,
  leverage_not_finite, leverage_range, ValidationContext,
}

module _ {F : Type 0} ⦃f : Float F⦄ where
  unfoldable pub validate_confidence : Option F → ℤ × Option (Problem F)
  validate_confidence none = (pos 0, some confidence_required)
  validate_confidence (some v) =
      if not (is_finite v)
      then (pos 0, some confidence_not_finite)
      else if f.lt v (int 0) || f.lt (int 100) v
      then (pos 0, some (confidence_range v))
      else (f.to_int (f.round v), none)

  -- Without the reason that is returned beside the leverage.
  unfoldable pub validate_leverage :
      Option F → RecommendationAction → ValidationContext F → ℤ × Option (Problem F)
  unfolding RecommendationAction.is_entry
  validate_leverage none chosen ctx =
      (pos 0, if RecommendationAction.is_entry chosen then some leverage_required else none)
  validate_leverage (some v) chosen ctx =
      if not (is_finite v)
      then (pos 0, some leverage_not_finite)
      else if f.lt v (f.of_int ctx.min_leverage) || f.lt (f.of_int ctx.max_leverage) v
      then (pos 0, some (leverage_range ctx.min_leverage ctx.max_leverage v))
      else (f.to_int (f.round v), none)

module _ {D F : Type 0} ⦃d : Decimal D⦄ ⦃f : Float F⦄ ⦃c : Conversion D F⦄ where
  unfoldable pub validate_allocation : Option F → RecommendationAction → D × Option (Problem F)
  unfolding RecommendationAction.is_entry
  validate_allocation none chosen =
      (nought, if RecommendationAction.is_entry chosen then some allocation_required else none)
  validate_allocation (some v) chosen =
      if not (is_finite v)
      then (nought, some allocation_not_finite)
      else if f.lt v (int 0) || f.lt (int 100) v
      then (nought, some (allocation_range v))
      else if RecommendationAction.is_entry chosen && f.le v (int 0)
      then (nought, some allocation_not_positive)
      else (d.round 2 (c.to_decimal v), none)
