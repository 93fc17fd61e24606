-- ===== src/Risk/Input.antt =====
-- backend/internal/risk/engine.go: what the engine reads and what it returns; of the feature snapshot
-- (backend/internal/domain/analysis.go) the fields that it reads. A note is kept as what it formats,
-- since its text is that of fmt.Sprintf. Of Assessment the fields Rejected and RejectReason, and of
-- LeveragePlan the field Reason, are left out: the engine sets none of them.
use crypto_market_advisor.Base.{ℕ, Bool, Option, List}
use crypto_market_advisor.Base.Int.{ℤ}
use crypto_market_advisor.Domain.Kinds.{DataQualityStatus, MarketRegime, RegimeTag, LevelType}
use crypto_market_advisor.Domain.Timeframe.{Timeframe}
use crypto_market_advisor.Domain.Plan.{PriceTarget}
use crypto_market_advisor.Domain.RecommendationAction.{RecommendationAction}
use crypto_market_advisor.Domain.RiskLevel.{RiskLevel}

-- Of config.RiskConfig all fields; the maximal age is in nanoseconds.
pub record RiskConfig (D F : Type 0) : Type 0 where
  pub min_leverage : ℤ
  pub max_leverage : ℤ
  pub max_recommended_alloc_pct : D
  pub high_volatility_atr_pct : F
  pub extreme_volatility_atr_pct : F
  pub min_confidence : ℤ
  pub risk_per_trade_pct : F
  pub critical_news_max_leverage : ℤ
  pub critical_news_high_vol_max_leverage : ℤ
  pub critical_news_max_age : ℕ

pub record Indicators (F : Type 0) : Type 0 where
  pub atr_pct : Option F
  pub atr_percentile : Option F
  pub vol_percentile : Option F

pub record Level (F : Type 0) : Type 0 where
  pub price : F
  pub type : LevelType
  pub strength : F
  pub distance_pct : F

pub record NewsSnapshotItem : Type 0 where
  pub critical : Bool
  pub age_minutes : ℤ

pub record FeatureSnapshot (F : Type 0) : Type 0 where
  -- A missing key is `none`.
  pub timeframes : Timeframe → Option (Indicators F)
  pub alignment_score : F
  pub regime : MarketRegime
  pub tags : List RegimeTag
  pub volatility_risk : F
  pub key_levels : List (Level F)
  pub asset_news : List NewsSnapshotItem
  pub global_news : List NewsSnapshotItem
  pub data_quality : DataQualityStatus

pub record Input (D F : Type 0) : Type 0 where
  pub action : RecommendationAction
  pub confidence : ℤ
  pub llm_leverage : ℤ
  pub llm_allocation : D
  pub llm_risk_level : RiskLevel
  pub reference_price : F
  pub stop_loss : List (PriceTarget F)
  pub snapshot : FeatureSnapshot F

pub data Note (D F : Type 0) : Type 0 where
  empty_note critical_news critical_news_high_volatility : Note D F
  stop_caps : (distance by_stop : F) → Note D F
  no_usable_stop atr_unavailable : Note D F
  extreme_volatility elevated_volatility : (atr_pct cap : F) → Note D F
  high_percentile : F → Note D F
  uncertain_regime range_regime breakout_regime high_volatility_tag : Note D F
  low_confidence : (confidence threshold : ℤ) → Note D F
  moderate_confidence : Note D F
  disagreement : F → Note D F
  opposing_level : F → Note D F
  poor_data : DataQualityStatus → Note D F
  leverage_adjusted : (suggested adjusted : ℤ) → Note D F
  size_by_risk : D → (risk distance : F) → Note D F
  allocation_reduced : (wanted maximum : D) → Note D F
  scaled_for_confidence : D → ℤ → Note D F
  scaled_at_floor : Note D F

-- `summarize`: no adjustment, one note, or the first of several and how many more there are.
pub data Reason (D F : Type 0) : Type 0 where
  no_reason no_adjustment : Reason D F
  one : Note D F → Reason D F
  first_of : Note D F → (more : ℕ) → Reason D F

pub record LeveragePlan (D F : Type 0) : Type 0 where
  pub llm_suggested : ℤ
  pub risk_maximum : ℤ
  pub recommended : ℤ
  pub risk_reason : Reason D F

pub record Assessment (D F : Type 0) : Type 0 where
  pub leverage : LeveragePlan D F
  pub allocation_pct : D
  pub risk_level : RiskLevel
  pub notes : List (Note D F)
  pub stop_distance : Option F
