-- ===== src/Domain/Market.antt =====
-- backend/internal/domain/market.go: candles and assets.
use crypto_market_advisor.Base.{ℕ, Bool, String}
use crypto_market_advisor.Domain.Timeframe.{Time}

pub record Candle (F : Type 0) : Type 0 where
  pub open_time : Time
  pub close_time : Time
  pub open_price : F
  pub high : F
  pub low : F
  pub close : F
  pub volume : F
  pub closed : Bool

-- Of an asset the fields that the modelled code reads.
pub record Asset : Type 0 where
  pub id : ℕ
  pub symbol : String
