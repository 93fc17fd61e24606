-- ===== src/Pnl/Compute.antt =====
-- backend/internal/pnl/pnl.go: `Compute` and `Classify`.
use crypto_market_advisor.Base.{
  Bool, true, false, not, ◌&&◌, if◌then◌else◌, Option, none, some, List, [], ◌∷◌,
}
use crypto_market_advisor.Numbers.Decimal.{Decimal, nought, hundred, greater_than, less_than}
use crypto_market_advisor.Domain.Direction
use crypto_market_advisor.Domain.PositionStatus.{PositionStatus, closed}
use crypto_market_advisor.Domain.Kinds.{
  FillKind, open_fill, close_fill, TradeResult, win, loss, breakeven,
}
use crypto_market_advisor.Domain.Position.{Position, Fill, CashEvent, PnL}

pub record Inputs (D F : Type 0) : Type 0 where
  pub position : Position D F
  pub fills : List (Fill D)
  pub fees : List (CashEvent D)
  pub funding : List (CashEvent D)
  pub current_price : Option D
  pub fees_configured : Bool

abbrev pub is_close : FillKind → Bool
is_close close_fill = true
is_close open_fill = false

abbrev pub is_closed : PositionStatus → Bool
is_closed closed = true
is_closed _ = false

-- The variables of the loop over the fills.
pub record Sums (D : Type 0) : Type 0 where
  pub gross : D
  pub fees : D
  pub closed_qty : D

module _ {D : Type 0} ⦃d : Decimal D⦄ where
  abbrev pub or_nought : Option D → D
  or_nought none = nought
  or_nought (some q) = q

  abbrev pub is_positive : Option D → Bool
  is_positive none = false
  is_positive (some q) = greater_than q nought

  abbrev pub add_some : D → Option D → D
  add_some acc none = acc
  add_some acc (some q) = d.add acc q

  abbrev pub rounded : Option D → (D → D) → D
  rounded none f = nought
  rounded (some c) f = d.round 6 (f c)

  -- The body of the loop over the fills.
  abbrev pub add_fill : Sums D → Fill D → Sums D
  add_fill s f =
      let paid = d.add s.fees f.fee in
      if not (is_close f.kind) then record s { fees = paid } else record {
        gross = d.add s.gross f.realized_pnl;
        fees = paid;
        closed_qty = add_some s.closed_qty f.quantity;
      }

  unfoldable pub sum_fills : Sums D → List (Fill D) → Sums D
  sum_fills s [] = s
  sum_fills s (f ∷ fs) = sum_fills (add_fill s f) fs

  unfoldable pub sum_amounts : D → List (CashEvent D) → D
  sum_amounts acc [] = acc
  sum_amounts acc (e ∷ es) = sum_amounts (d.add acc e.amount) es

  module _ {F : Type 0} where
    abbrev sign : Position D F → D
    sign p = d.of_int (Direction.sign p.direction)

    -- out.RemainingPct
    unfoldable pub remaining_pct : Position D F → D
    remaining_pct p =
        if is_positive p.initial_quantity
        then d.round 4
            (d.mul (d.div (or_nought p.remaining_quantity) (or_nought p.initial_quantity)) hundred)
        else if is_closed p.status
        then nought
        else hundred

    -- The change of the price since the entry in percent, signed by the direction, if there is a
    -- current price and the entry price is positive.
    unfoldable pub price_change : Position D F → Option D → Option D
    unfolding Direction.sign
    price_change p none = none
    price_change p (some price) =
        if greater_than p.entry_price nought
        then some (d.mul (d.mul (d.div (d.sub price p.entry_price) p.entry_price) hundred) (sign p))
        else none

    -- out.Unrealized
    unfoldable pub unrealized : Position D F → Option D → D
    unfolding Direction.sign
    unrealized p none = nought
    unrealized p (some price) =
        if greater_than p.entry_price nought
          && not (is_closed p.status)
          && greater_than (or_nought p.remaining_quantity) nought
        then d.round 10
            (d.mul (d.mul (d.sub price p.entry_price) (or_nought p.remaining_quantity)) (sign p))
        else nought

    -- A share of the initial margin in percent, if that is known and positive.
    unfoldable pub on_margin : Position D F → D → Option D
    on_margin p amount =
        if is_positive p.initial_margin
        then some (d.round 4 (d.mul (d.div amount (or_nought p.initial_margin)) hundred))
        else none

    unfoldable pub compute : Inputs D F → PnL D
    unfolding sum_fills sum_amounts remaining_pct price_change unrealized on_margin
    compute i =
        let p = i.position in
        let sums =
          sum_fills (record { gross = nought; fees = nought; closed_qty = nought }) i.fills in
        let paid = sum_amounts sums.fees i.fees in
        let received = sum_amounts nought i.funding in
        let net = d.add (d.sub sums.gross paid) received in
        let open_part = unrealized p i.current_price in
        let sum = d.add net open_part in
        let change = price_change p i.current_price in
        record {
          gross_realized = sums.gross;
          net_realized = net;
          unrealized = open_part;
          total = sum;
          fees = paid;
          funding = received;
          realized_pct = on_margin p net;
          unrealized_pct = on_margin p open_part;
          price_change_pct = rounded change (λ c. c);
          leveraged_roi_pct = rounded change (λ c. d.mul c p.leverage);
          roi_on_margin_pct = on_margin p sum;
          approximate = not p.size_known;
          fees_configured = i.fees_configured;
          remaining_pct = remaining_pct p;
        }

  unfoldable pub classify : D → TradeResult
  classify net =
      if greater_than net nought then win else if less_than net nought then loss else breakeven
