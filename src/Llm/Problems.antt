-- ===== src/Llm/Problems.antt =====
-- backend/internal/llm/validate.go: the facts that an answer is checked against, and the problems that
-- are found. A problem is kept as what it formats, since its text is that of fmt.Sprintf.
use crypto_market_advisor.Base.{ℕ, String, Option}
use crypto_market_advisor.Base.Int.{ℤ}

pub data Field : Type 0 where
  take_profit stop_loss : Field

pub data Problem (F : Type 0) : Type 0 where
  confidence_required confidence_not_finite : Problem F
  confidence_range : F → Problem F
  allocation_required allocation_not_finite allocation_not_positive : Problem F
  allocation_range : F → Problem F
  leverage_required leverage_not_finite : Problem F
  leverage_range : (least most : ℤ) → F → Problem F
  too_many_levels : Field → (count : ℕ) → Problem F
  price_invalid close_pct_required : Field → (index : ℕ) → Problem F
  close_pct_range : Field → (index : ℕ) → F → Problem F
  wrong_side : Field → (index : ℕ) → (price reference : F) → Problem F
  close_pct_sum : Field → F → Problem F
  preferred_min_invalid preferred_max_invalid zone_reversed : Problem F
  zone_far : (price reference : F) → Problem F
  levels_required : Field → Problem F

-- Of ValidationContext the fields that the modelled checks read.
pub record ValidationContext (F : Type 0) : Type 0 where
  pub reference_price : F
  pub min_leverage : ℤ
  pub max_leverage : ℤ
  pub close_tolerance_pct : F

pub record TargetJson (F : Type 0) : Type 0 where
  pub price : Option F
  pub close_pct : Option F
  pub reason : String

-- Of EntryJSON the field CurrentPrice, which is not read, is left out.
pub record EntryJson (F : Type 0) : Type 0 where
  pub type : String
  pub preferred_min : Option F
  pub preferred_max : Option F

-- domain.EntryPlan
pub record EntryPlan (F : Type 0) : Type 0 where
  pub type : String
  pub current_price : F
  pub preferred_min : Option F
  pub preferred_max : Option F
