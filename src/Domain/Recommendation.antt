-- ===== src/Domain/Recommendation.antt =====
-- backend/internal/domain/recommendation.go: recommendations and their outcomes. Of a recommendation
-- the fields that the modelled code reads.
use crypto_market_advisor.Base.{ℕ, String, List, Option, Bool, true, false, if◌then◌else◌, ltb, ◌+◌}
use crypto_market_advisor.Base.Int.{ℤ}
use crypto_market_advisor.Domain.Timeframe.{Time}
use crypto_market_advisor.Domain.Plan.{Uuid, PriceTarget}
use crypto_market_advisor.Domain.RecommendationAction.{RecommendationAction}
use crypto_market_advisor.Domain.Kinds.{
  OutcomeStatus, TradeResult, DataQualityStatus, RecommendationFreshness, fresh, stale, incomplete,
  ok,
}

pub record Recommendation (D F : Type 0) : Type 0 where
  pub id : Uuid
  pub asset_id : ℕ
  pub created_at : Time
  pub action : RecommendationAction
  pub confidence : ℤ
  pub reference_price : D
  pub take_profit : List (PriceTarget F)
  pub stop_loss : List (PriceTarget F)
  pub data_quality : DataQualityStatus

pub record Outcome (F : Type 0) : Type 0 where
  pub recommendation_id : Uuid
  pub evaluated_at : Time
  pub finalized : Bool
  pub price_after_5m : Option F
  pub price_after_15m : Option F
  pub price_after_1h : Option F
  pub price_after_4h : Option F
  pub price_after_24h : Option F
  pub mfe_pct : Option F
  pub mae_pct : Option F
  pub first_tp_hit_index : Option ℕ
  pub first_sl_hit_index : Option ℕ
  pub status : OutcomeStatus
  pub is_ambiguous : Bool
  pub ambiguity_reason : String
  pub result : TradeResult

abbrev pub quality_ok : DataQualityStatus → Bool
quality_ok ok = true
quality_ok _ = false

-- `Freshness`: `now.Sub(created) > stale_after`.
unfoldable pub freshness :
    {D F : Type 0} → Recommendation D F → (now : Time) → (stale_after : ℕ) → RecommendationFreshness
freshness r now stale_after =
    if quality_ok r.data_quality
    then (if ltb (r.created_at + stale_after) now then stale else fresh)
    else incomplete
