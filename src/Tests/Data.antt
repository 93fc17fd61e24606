-- ===== src/Tests/Data.antt =====
-- Concrete positions, candles and tables.
use crypto_market_advisor.Base.{ℕ, Bool, true, false, none, some, [], ◌∷◌, ◌*◌, ◌+◌}
use crypto_market_advisor.Base.Int.{ℤ, pos, negsuc}
use crypto_market_advisor.Numbers.Fixed.{Hundredths}
use crypto_market_advisor.Domain.Timeframe.{Time, minute, hour}
use crypto_market_advisor.Domain.Direction.{long}
use crypto_market_advisor.Domain.FeeType.{taker}
use crypto_market_advisor.Domain.PositionStatus.{is_open}
use crypto_market_advisor.Domain.Kinds.{open_fill, close_fill, ok}
use crypto_market_advisor.Domain.Market.{Candle}
use crypto_market_advisor.Domain.RecommendationAction.{open_long}
use crypto_market_advisor.Domain.Recommendation.{Recommendation}
use crypto_market_advisor.Domain.Position.{Position, Fill, CashEvent}
use crypto_market_advisor.Positions.Store.{Store, Session}
use crypto_market_advisor.Positions.Service.{FeesConfig, OpenRequest, CloseRequest}

-- Ten units bought at 100.
abbrev pub ten_units : Position ℤ Hundredths
ten_units = record {
  id = 1;
  asset_id = 7;
  symbol = "BTC";
  direction = long;
  status = is_open;
  entry_price = pos 100;
  leverage = pos 5;
  initial_quantity = some (pos 10);
  remaining_quantity = some (pos 10);
  initial_notional = some (pos 1000);
  initial_margin = some (pos 200);
  size_known = true;
  opened_at = hour;
  closed_at = none;
  recommendation_id = none;
  fee_type = taker;
  original_plan = none;
  current_plan = none;
  note = "";
}

abbrev pub opening : Fill ℤ
opening = record {
  id = 11;
  position_id = 1;
  kind = open_fill;
  quantity = some (pos 10);
  close_pct = none;
  price = pos 100;
  fee = pos 2;
  fee_type = taker;
  fee_estimated = false;
  realized_pnl = pos 0;
  executed_at = hour;
  note = "";
}

-- Four units sold at 110.
abbrev pub sale : Fill ℤ
sale = record {
  id = 12;
  position_id = 1;
  kind = close_fill;
  quantity = some (pos 4);
  close_pct = some (pos 40);
  price = pos 110;
  fee = pos 1;
  fee_type = taker;
  fee_estimated = false;
  realized_pnl = pos 40;
  executed_at = 2 * hour;
  note = "";
}

abbrev pub funding_paid : CashEvent ℤ
funding_paid = record {
  id = 21;
  position_id = 1;
  amount = negsuc 2;
  fee_type = taker;
  occurred_at = 2 * hour;
  note = "";
}

abbrev pub fees_config : FeesConfig ℤ
fees_config = record { maker_pct = pos 1; taker_pct = pos 2; configured = true }

abbrev pub buy_ten : OpenRequest ℤ Hundredths
buy_ten = record {
  symbol = "BTC";
  direction = long;
  entry_price = pos 100;
  leverage = pos 5;
  opened_at = 0;
  quantity = some (pos 10);
  notional = none;
  margin = none;
  fee_type = taker;
  actual_fee = none;
  recommendation_id = none;
  take_profit = [];
  stop_loss = [];
  note = "";
}

abbrev pub sell_four : CloseRequest ℤ
sell_four = record {
  position_id = 1;
  execution_price = pos 110;
  close_pct = none;
  quantity = some (pos 4);
  fee_type = taker;
  actual_fee = none;
  executed_at = 0;
  full = false;
  note = "";
}

abbrev pub never : ℕ → Bool
never n = false

abbrev pub fresh_store : Store ℤ Hundredths
fresh_store = record {
  assets = record { id = 7; symbol = "BTC" } ∷ [];
  prices = λ n. none;
  positions = [];
  fills = [];
  events = [];
  fee_events = [];
  funding_events = [];
  decisions = [];
}

abbrev pub fresh_session : Session ℤ Hundredths
fresh_session = record { store = fresh_store; fails = never; statements = 0; upper = λ s. s }

-- A session in which the ten units are held.
abbrev pub holding : Session ℤ Hundredths
holding = record fresh_session {
  store = record fresh_store { positions = ten_units ∷ []; fills = opening ∷ [] };
}

-- A minute from `open_at` on, between two prices in hundredths.
abbrev pub bar : (open_at : Time) → (low high close : ℕ) → Candle Hundredths
bar open_at low high close = record {
  open_time = open_at * minute;
  close_time = (open_at + 1) * minute;
  open_price = pos close;
  high = pos high;
  low = pos low;
  close = pos close;
  volume = pos 0;
  closed = true;
}

-- Buy at 100, take profit at 110, stop at 95.
abbrev pub advice : Recommendation ℤ Hundredths
advice = record {
  id = 5;
  asset_id = 7;
  created_at = 0;
  action = open_long;
  confidence = pos 70;
  reference_price = pos 100;
  take_profit = record { price = pos 11000; close_pct = pos 10000; reason = "" } ∷ [];
  stop_loss = record { price = pos 9500; close_pct = pos 10000; reason = "" } ∷ [];
  data_quality = ok;
}
