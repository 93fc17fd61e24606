-- ===== src/Positions/Service.antt =====
-- backend/internal/positions/service.go: opening and closing a position. `now` is the time of a
-- request, and its uuids are arguments.
use crypto_market_advisor.Base.{
  Bool, true, false, if◌then◌else◌, String, Option, none, some, List, ◌==◌,
}
use text.Mathlib.Text.{◌==◌ as str_eq}
use crypto_market_advisor.Numbers.Decimal.{Decimal, nought}
use crypto_market_advisor.Domain.Timeframe.{Time}
use crypto_market_advisor.Domain.Market.{Asset}
use crypto_market_advisor.Domain.Plan.{Uuid, PriceTarget, TradePlan, Decision}
use crypto_market_advisor.Domain.Direction.{Direction}
use crypto_market_advisor.Domain.FeeType.{FeeType, taker}
use crypto_market_advisor.Domain.UserDecision
use crypto_market_advisor.Domain.PositionStatus.{is_open}
use crypto_market_advisor.Domain.Kinds.{open_fill}
use crypto_market_advisor.Domain.Position.{Position, Fill}
use crypto_market_advisor.Pnl.{derive_size, open_fee, Size}
use crypto_market_advisor.Positions.Store.{
  Session, Result, err, unknown_asset, not_found, Db, pure, ◌>>=◌, ◌>>◌, attempt,
}
use crypto_market_advisor.Positions.Repository.{create}
use crypto_market_advisor.Positions.Queries.{get_by_symbol, set_decision}

-- config.FeesConfig, the fields that the service reads.
pub record FeesConfig (D : Type 0) : Type 0 where
  pub maker_pct : D
  pub taker_pct : D
  pub configured : Bool

pub record OpenRequest (D F : Type 0) : Type 0 where
  pub symbol : String
  pub direction : Direction
  pub entry_price : D
  pub leverage : D
  pub opened_at : Time
  pub quantity : Option D
  pub notional : Option D
  pub margin : Option D
  pub fee_type : FeeType
  pub actual_fee : Option D
  pub recommendation_id : Option Uuid
  pub take_profit : List (PriceTarget F)
  pub stop_loss : List (PriceTarget F)
  pub note : String

pub record CloseRequest (D : Type 0) : Type 0 where
  pub position_id : Uuid
  pub execution_price : D
  pub close_pct : Option D
  pub quantity : Option D
  pub fee_type : FeeType
  pub actual_fee : Option D
  pub executed_at : Time
  pub full : Bool
  pub note : String

-- A fee type that is not given is the empty string.
abbrev pub or_fee_type : FeeType → FeeType → FeeType
or_fee_type (FeeType.other s) t = if str_eq s "" then t else FeeType.other s
or_fee_type given t = given

-- A time that is not given is the zero time.
abbrev pub or_time : Time → Time → Time
or_time at now = if at == 0 then now else at

-- The decision that links a recommendation to its position.
abbrev pub opened_decision : (recommendation_id position_id : Uuid) → Time → Decision
opened_decision r id now = record {
  recommendation_id = r;
  decision = UserDecision.opened;
  linked_position_id = some id;
  decided_at = now;
  note = "";
}

abbrev pub if_known : {D : Type 0} → Bool → D → Option D
if_known true q = some q
if_known false q = none

module _ {D F : Type 0} ⦃d : Decimal D⦄ where
  abbrev pub requested_size : OpenRequest D F → Size D
  requested_size req = derive_size req.entry_price req.leverage req.quantity req.notional req.margin

  -- The position that `Open` builds.
  unfoldable pub new_position :
      OpenRequest D F → Asset → Size D → (now : Time) → (id : Uuid) → Position D F
  new_position req asset size now id =
      let plan : TradePlan F = record {
        take_profit = req.take_profit;
        stop_loss = req.stop_loss;
        updated_at = now;
        note = "";
      } in
      record {
        id = id;
        asset_id = asset.id;
        symbol = asset.symbol;
        direction = req.direction;
        status = is_open;
        entry_price = req.entry_price;
        leverage = req.leverage;
        initial_quantity = if_known size.size_known size.quantity;
        remaining_quantity = if_known size.size_known size.quantity;
        initial_notional = if_known size.size_known size.notional;
        initial_margin = if_known size.size_known size.margin;
        size_known = size.size_known;
        opened_at = or_time req.opened_at now;
        closed_at = none;
        recommendation_id = req.recommendation_id;
        fee_type = or_fee_type req.fee_type taker;
        original_plan = some plan;
        current_plan = some plan;
        note = req.note;
      }

  -- The opening fill.
  unfoldable pub opening_fill :
      FeesConfig D → OpenRequest D F → Size D → Position D F → (id : Uuid) → Fill D
  unfolding open_fee
  opening_fill fees req size p id =
      let (fee, estimated) =
        open_fee req.entry_price size.quantity fees.maker_pct fees.taker_pct p.fee_type
          req.actual_fee fees.configured in
      record {
        id = id;
        position_id = p.id;
        kind = open_fill;
        quantity = if_known size.size_known size.quantity;
        close_pct = none;
        price = req.entry_price;
        fee = fee;
        fee_type = p.fee_type;
        fee_estimated = estimated;
        realized_pnl = nought;
        executed_at = p.opened_at;
        note = "position opened";
      }

  -- A missing asset is reported as such.
  abbrev pub or_unknown_asset : Db D F Asset → Db D F Asset
  or_unknown_asset m s = renamed (m s)
    where
      renamed : Result Asset × Session D F → Result Asset × Session D F
      renamed (err not_found, t) = (err unknown_asset, t)
      renamed (r, t) = (r, t)

  -- Linking the recommendation; a failure is only logged.
  abbrev pub link : Option Uuid → Uuid → Time → Db D F (Unit {0})
  link none id now = pure tt
  link (some r) id now = attempt (set_decision (opened_decision r id now))

  unfoldable pub open_position :
      FeesConfig D → (now : Time) → (id fill_id : Uuid) → OpenRequest D F → Db D F (Position D F)
  unfolding new_position opening_fill derive_size get_by_symbol create set_decision
  open_position fees now id fill_id req = do
    asset ← or_unknown_asset (get_by_symbol req.symbol)
    let size = requested_size req
    let position = new_position req asset size now id
    create position (opening_fill fees req size position fill_id)
    link req.recommendation_id position.id now
    pure position
