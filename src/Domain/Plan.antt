-- ===== src/Domain/Plan.antt =====
-- backend/internal/domain/recommendation.go: price targets, trade plans and decisions.
use crypto_market_advisor.Base.{ℕ, String, List, Option}
use crypto_market_advisor.Domain.Timeframe.{Time}
use crypto_market_advisor.Domain.UserDecision.{UserDecision}

-- A uuid.UUID is only compared.
abbrev pub Uuid : Type 0
Uuid = ℕ

pub record PriceTarget (F : Type 0) : Type 0 where
  pub price : F
  pub close_pct : F
  pub reason : String

pub record TradePlan (F : Type 0) : Type 0 where
  pub take_profit : List (PriceTarget F)
  pub stop_loss : List (PriceTarget F)
  pub updated_at : Time
  pub note : String

pub record Decision : Type 0 where
  pub recommendation_id : Uuid
  pub decision : UserDecision
  pub linked_position_id : Option Uuid
  pub decided_at : Time
  pub note : String
