-- ===== src/Domain/Kinds.antt =====
-- backend/internal/domain/enums.go and position.go: the types of constants that are only written by
-- the program and compared, so that no other string arises.

pub data FillKind : Type 0 where
  open_fill close_fill : FillKind

pub data PositionEventType : Type 0 where
  opened partial_close full_close fee_added funding_added : PositionEventType
  plan_updated note_added stop_loss_moved : PositionEventType

pub data DataQualityStatus : Type 0 where
  ok degraded unusable : DataQualityStatus

pub data MarketRegime : Type 0 where
  strong_uptrend weak_uptrend strong_downtrend weak_downtrend : MarketRegime
  range breakout compression uncertain : MarketRegime

pub data RegimeTag : Type 0 where
  high_volatility low_volatility strong_momentum weak_momentum overbought oversold : RegimeTag
  volume_spike volume_dry near_resistance near_support squeeze expanding_ranges : RegimeTag

pub data LevelType : Type 0 where
  support resistance : LevelType

pub data RecommendationFreshness : Type 0 where
  fresh stale incomplete : RecommendationFreshness

-- `unset` is the empty string.
pub data TradeResult : Type 0 where
  win loss breakeven still_open unset : TradeResult

pub data OutcomeStatus : Type 0 where
  pending tp_hit sl_hit ambiguous neither no_trade : OutcomeStatus
