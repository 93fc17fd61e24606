-- ===== src/Domain/Position.antt =====
-- backend/internal/domain/position.go. `D` is the type of the decimals, `F` that of float64.
use crypto_market_advisor.Base.{ℕ, String, List, Option, Bool}
use crypto_market_advisor.Base.Int.{ℤ}
use crypto_market_advisor.Domain.Timeframe.{Time}
use crypto_market_advisor.Domain.Plan.{Uuid, PriceTarget, TradePlan}
use crypto_market_advisor.Domain.Direction.{Direction}
use crypto_market_advisor.Domain.PositionStatus.{PositionStatus}
use crypto_market_advisor.Domain.FeeType.{FeeType}
use crypto_market_advisor.Domain.Kinds.{FillKind, PositionEventType, TradeResult}

pub record Position (D F : Type 0) : Type 0 where
  pub id : Uuid
  pub asset_id : ℕ
  pub symbol : String
  pub direction : Direction
  pub status : PositionStatus
  pub entry_price : D
  pub leverage : D
  pub initial_quantity : Option D
  pub remaining_quantity : Option D
  pub initial_notional : Option D
  pub initial_margin : Option D
  pub size_known : Bool
  pub opened_at : Time
  pub closed_at : Option Time
  pub recommendation_id : Option Uuid
  pub fee_type : FeeType
  pub original_plan : Option (TradePlan F)
  pub current_plan : Option (TradePlan F)
  pub note : String

pub record Fill (D : Type 0) : Type 0 where
  pub id : Uuid
  pub position_id : Uuid
  pub kind : FillKind
  pub quantity : Option D
  pub close_pct : Option D
  pub price : D
  pub fee : D
  pub fee_type : FeeType
  pub fee_estimated : Bool
  pub realized_pnl : D
  pub executed_at : Time
  pub note : String

-- The map `Payload` of an event, by what the code puts into it.
pub data Payload (D F : Type 0) : Type 0 where
  opening : (entry_price leverage : D) (direction : Direction) → Payload D F
  closing : (price close_pct realized_pnl fee : D) (fee_type : FeeType) → Payload D F
  planning : (note : String) (take_profit stop_loss : List (PriceTarget F)) → Payload D F
  paying : (amount : D) (note : String) → Payload D F

pub record PositionEvent (D F : Type 0) : Type 0 where
  pub position_id : Uuid
  pub event_type : PositionEventType
  pub payload : Payload D F
  pub occurred_at : Time

pub record CashEvent (D : Type 0) : Type 0 where
  pub id : Uuid
  pub position_id : Uuid
  pub amount : D
  pub fee_type : FeeType
  pub occurred_at : Time
  pub note : String

pub record PnL (D : Type 0) : Type 0 where
  pub gross_realized : D
  pub net_realized : D
  pub unrealized : D
  pub total : D
  pub fees : D
  pub funding : D
  pub realized_pct : Option D
  pub unrealized_pct : Option D
  pub price_change_pct : D
  pub leveraged_roi_pct : D
  pub roi_on_margin_pct : Option D
  pub approximate : Bool
  pub fees_configured : Bool
  pub remaining_pct : D

-- The fields `MFEPct` and `MAEPct` are left out: the modelled code does not set them.
pub record PositionView (D F : Type 0) : Type 0 where
  pub position : Position D F
  pub fills : List (Fill D)
  pub events : List (PositionEvent D F)
  pub fee_events : List (CashEvent D)
  pub funding_events : List (CashEvent D)
  pub current_price : Option F
  pub pnl : PnL D
  pub age_minutes : ℤ
  pub result : TradeResult
