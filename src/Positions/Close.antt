-- ===== src/Positions/Close.antt =====
-- backend/internal/positions/service.go: `Close`, `UpdatePlan`, `AddFee`, `AddFunding`, `Delete`.
use crypto_market_advisor.Base.{
  Bool, not, ◌&&◌, ◌||◌, if◌then◌else◌, String, Option, none, some, List, is_none,
}
use crypto_market_advisor.Numbers.Decimal.{Decimal, nought, hundred, is_zero}
use crypto_market_advisor.Numbers.Float.{Float, Conversion}
use crypto_market_advisor.Domain.Timeframe.{Time}
use crypto_market_advisor.Domain.Plan.{Uuid, PriceTarget}
use crypto_market_advisor.Domain.FeeType.{FeeType, custom}
use crypto_market_advisor.Domain.PositionStatus.{partially_closed, closed}
use crypto_market_advisor.Domain.Kinds.{
  PositionEventType, close_fill, partial_close, full_close, fee_added, funding_added,
}
use crypto_market_advisor.Domain.Position.{
  Position, PositionView, CashEvent, Fill, Payload, closing, planning,
}
use crypto_market_advisor.Pnl.{CloseResult, compute_close, is_closed, CloseRequest as SizeRequest}
use crypto_market_advisor.Positions.Store.{
  position_closed, no_close_size, Db, pure, throw, ◌>>=◌, ◌>>◌, guard,
}
use crypto_market_advisor.Positions.Repository.{apply_close}
use crypto_market_advisor.Positions.Queries.{
  get, update_plan as store_plan, add_cash_event, with_fee, with_funding,
}
use crypto_market_advisor.Positions.Service.{
  FeesConfig, CloseRequest, or_fee_type, or_time, if_known,
}
use crypto_market_advisor.Positions.View.{view}

-- What `Close` writes.
pub record Settlement (D F : Type 0) : Type 0 where
  pub updated : Position D F
  pub fill : Fill D
  pub event_type : PositionEventType
  pub payload : Payload D F
  pub fully_closed : Bool

abbrev pub effective_quantity : {D : Type 0} → CloseRequest D → Option D
effective_quantity req = if req.full then none else req.quantity

module _ {D F : Type 0} ⦃d : Decimal D⦄ where
  -- The percentage and the quantity after the defaults of `Close`: all for `Full`, and all where
  -- neither the position nor the request has a size.
  abbrev pub effective_pct : Position D F → CloseRequest D → Option D
  effective_pct p req =
      if req.full || not p.size_known && is_none req.quantity && is_none req.close_pct
      then some hundred
      else req.close_pct

  -- The request that goes to `pnl.ComputeClose`.
  abbrev pub size_request : FeesConfig D → Position D F → CloseRequest D → SizeRequest D F
  size_request fees p req = record {
    position = p;
    execution_price = req.execution_price;
    close_pct = effective_pct p req;
    quantity = effective_quantity req;
    fee_type = or_fee_type req.fee_type p.fee_type;
    actual_fee = req.actual_fee;
    maker_fee_pct = fees.maker_pct;
    taker_fee_pct = fees.taker_pct;
    fees_configured = fees.configured;
  }

  abbrev pub is_full : Position D F → CloseRequest D → CloseResult D → Bool
  is_full p req res = req.full || (if p.size_known then is_zero res.remaining else res.fully_closed)

  unfoldable pub closing_fill :
      Position D F → CloseRequest D → CloseResult D → (now : Time) → (id : Uuid) → Fill D
  closing_fill p req res now id = record {
    id = id;
    position_id = p.id;
    kind = close_fill;
    quantity = if_known p.size_known res.quantity;
    close_pct = some res.close_pct;
    price = req.execution_price;
    fee = res.fee;
    fee_type = or_fee_type req.fee_type p.fee_type;
    fee_estimated = res.fee_estimated;
    realized_pnl = res.realized_pnl;
    executed_at = or_time req.executed_at now;
    note = req.note;
  }

  -- The position after the close.
  unfoldable pub closed_position :
      Position D F → CloseRequest D → CloseResult D → (now : Time) → Position D F
  closed_position p req res now =
      if is_full p req res
      then record p {
        status = closed;
        closed_at = some (or_time req.executed_at now);
        remaining_quantity = if p.size_known then some nought else p.remaining_quantity;
      }
      else record p {
        status = partially_closed;
        remaining_quantity = if p.size_known then some res.remaining else p.remaining_quantity;
      }

  unfoldable pub settle :
      Position D F → CloseRequest D → CloseResult D → (now : Time) → (id : Uuid) → Settlement D F
  unfolding closing_fill closed_position
  settle p req res now id = record {
    updated = closed_position p req res now;
    fill = closing_fill p req res now id;
    event_type = if is_full p req res then full_close else partial_close;
    payload =
        closing req.execution_price res.close_pct res.realized_pnl res.fee
          (or_fee_type req.fee_type p.fee_type);
    fully_closed = is_full p req res;
  }

  -- `Close` up to the view that it returns: the position is read, settled and written.
  abbrev pub or_no_size : Option (CloseResult D) → Db D F (CloseResult D)
  or_no_size none = throw no_close_size
  or_no_size (some res) = pure res

  unfoldable pub record_close :
      FeesConfig D → (now : Time) → (fill_id : Uuid) → CloseRequest D → Db D F (Position D F)
  unfolding get compute_close settle apply_close
  record_close fees now fill_id req = do
    p ← get req.position_id
    guard (not (is_closed p.status)) position_closed
    res ← or_no_size (compute_close (size_request fees p req))
    let s = settle p req res now fill_id
    apply_close s.updated s.fill s.event_type s.payload
    pure p

  -- `AddFee` and `AddFunding`.
  unfoldable pub add_fee :
      (now : Time) → (id position_id : Uuid) → D → FeeType → Time → String → Db D F (Unit {0})
  unfolding add_cash_event
  add_fee now id position_id amount fee_type at note =
      add_cash_event (with_fee (record e { amount = d.numeric amount })) e fee_added
    where
      e : CashEvent D
      e = record {
        id = id;
        position_id = position_id;
        amount = amount;
        fee_type = or_fee_type fee_type custom;
        occurred_at = or_time at now;
        note = note;
      }

  unfoldable pub add_funding :
      (now : Time) → (id position_id : Uuid) → D → Time → String → Db D F (Unit {0})
  unfolding add_cash_event
  add_funding now id position_id amount at note =
      add_cash_event (with_funding (record e { amount = d.numeric amount })) e funding_added
    where
      e : CashEvent D
      e = record {
        id = id;
        position_id = position_id;
        amount = amount;
        fee_type = FeeType.other "";
        occurred_at = or_time at now;
        note = note;
      }

  module _ ⦃f : Float F⦄ ⦃c : Conversion D F⦄ where
    unfoldable pub close_position :
        FeesConfig D → (now : Time) → (fill_id : Uuid) → CloseRequest D → Db D F (PositionView D F)
    unfolding record_close view
    close_position fees now fill_id req = do
      p ← record_close fees now fill_id req
      view fees.configured now p.id

    unfoldable pub update_plan :
        FeesConfig D
        → (now : Time) → Uuid
        → (take_profit stop_loss : List (PriceTarget F)) → String
        → Db D F (PositionView D F)
    unfolding get store_plan view
    update_plan fees now id take_profit stop_loss note = do
      p ← get id
      guard (not (is_closed p.status)) position_closed
      store_plan id
          (record {
            take_profit = take_profit;
            stop_loss = stop_loss;
            updated_at = now;
            note = note;
          })
          now (planning note take_profit stop_loss)
      view fees.configured now id
