-- ===== src/Backtest/Ledger.antt =====
-- backend/internal/backtesting/engine.go: the money of one trade. What an exit or a settlement moves into
-- the cash of the account is what it books to the trade.
use crypto_market_advisor.Base.{
  ℕ, String, ◌≡◌, sym, ap, ◌∙◌, false, not, ◌&&◌, if_elim, Option, arith,
}
use crypto_market_advisor.Numbers.Decimal.{
  Decimal, nought, less_than, greater_than, less_than_or_equal, is_zero,
}
use crypto_market_advisor.Numbers.Laws.{IsDecimal, ◌≼◌, sub_nonneg}
use crypto_market_advisor.Numbers.Sums.{sub-add_left, sub-add_add, sub_shift, add_right_swap}
use crypto_market_advisor.Numbers.Float.{Float, Conversion}
use crypto_market_advisor.Domain.Timeframe.{Time}
use crypto_market_advisor.Domain.FeeType.{FeeType}
use crypto_market_advisor.Domain.Market.{Candle}
use crypto_market_advisor.Backtest.Params.{BacktestParams, OpenTrade}
use crypto_market_advisor.Backtest.State.{SimState}
use crypto_market_advisor.Backtest.Exits.{
  exit_quantity, exit_price, book_exit, execute_exit, rate_at, funding_amount, settle_funding,
}
use crypto_market_advisor.Backtest.Kept.{Purse, purse, After}

module _ {D : Type 0} ⦃d : Decimal D⦄ where
  -- What the trade brought so far: gross profit and funding, less the fees.
  abbrev pub net : Purse D → D
  net p = d.sub (d.add p.gross p.funding) p.fees

  -- The cash without what the trade brought is k, and the quantities add up.
  pub record IsBalanced (k : D) (p : Purse D) (cash : D) : Type 0 where
    pub kept : d.sub cash (net p) ≡ k
    pub whole : d.add p.remaining p.exited ≡ p.original
    pub nonneg : nought ≼ p.remaining

  module _ (laws : IsDecimal D) where
    -- A gain and a cost move the cash and the trade alike.
    move_both :
        (cash g cost gross funding fees : D)
        → d.sub
            (d.sub (d.add cash g) cost)
            (d.sub (d.add (d.add gross g) funding) (d.add fees cost))
          ≡ d.sub cash (d.sub (d.add gross funding) fees)
    move_both cash g cost gross funding fees =
        rw
          (
            sub-add_left laws cash g cost,
            add_right_swap laws gross g funding,
            sub-add_add laws (d.add gross funding) g fees cost,
          )
          (sub_shift laws cash (d.sub (d.add gross funding) fees) (d.sub g cost))

    move_funding :
        (cash x gross funding fees : D)
        → d.sub (d.add cash x) (d.sub (d.add gross (d.add funding x)) fees)
          ≡ d.sub cash (d.sub (d.add gross funding) fees)
    move_funding cash x gross funding fees =
        rw
          (
            sym (laws.add_assoc gross funding x),
            laws.add_comm (d.add gross funding) x,
            sub-add_left laws x (d.add gross funding) fees,
            laws.add_comm x (d.sub (d.add gross funding) fees),
          )
          (sub_shift laws cash (d.sub (d.add gross funding) fees) x)

    shift_quantity :
        (left qty exited : D) → d.add (d.sub left qty) (d.add exited qty) ≡ d.add left exited
    shift_quantity left qty exited =
        ap (d.add (d.sub left qty)) (laws.add_comm exited qty)
        ∙ sym (laws.add_assoc (d.sub left qty) qty exited)
        ∙ ap (λ x. d.add x exited) (laws.sub-add left qty)

module _ {D F : Type 0} ⦃d : Decimal D⦄ ⦃f : Float F⦄ ⦃c : Conversion D F⦄ where
  -- An exit takes no more than what is left.
  pub exit_quantity-le :
      (laws : IsDecimal D) (o : OpenTrade D F) (pct : F) → exit_quantity o pct ≼ o.remaining_qty
  unfolding exit_quantity
  exit_quantity-le laws o pct = ground (arith, laws.lt_irrefl o.remaining_qty)

  module _ (laws : IsDecimal D) (params : BacktestParams D F) (k : D) where
    book_keeps :
        (at : Time) (fee_type : FeeType) (reason : String) (qty exit : D) (o : OpenTrade D F)
        (s : SimState D F)
        → qty ≼ o.remaining_qty
        → IsBalanced k (purse o) s.cash
        → After (IsBalanced k) (book_exit params at fee_type reason qty exit o s)
    unfolding book_exit
    book_keeps at fee_type reason qty exit o s h b = record {
      holds = record {
        kept = move_both laws s.cash _ _ o.gross_pnl o.funding o.fees ∙ b.kept;
        whole = rw left (shift_quantity laws o.remaining_qty qty o.exited_qty ∙ b.whole);
        nonneg = rw left left;
      };
    }
      where
        left : less_than (d.sub o.remaining_qty qty) nought ≡ false
        left = sub_nonneg laws qty o.remaining_qty h

    pub exit_keeps :
        (price pct : F) (at : Time) (fee_type : FeeType) (reason : String) (o : OpenTrade D F)
        (s : SimState D F)
        → IsBalanced k (purse o) s.cash
        → After (IsBalanced k) (execute_exit price pct at params fee_type reason o s)
    unfolding execute_exit
    exit_keeps price pct at fee_type reason o s h =
        if_elim (After (IsBalanced k)) (less_than_or_equal (exit_quantity o pct) nought)
          (record { holds = h })
          (book_keeps at fee_type reason (exit_quantity o pct)
            (exit_price params o.trade.direction fee_type price) o s (exit_quantity-le laws o pct)
            h)

    pub funding_keeps :
        (candle : Candle F) (funding : ℕ → Option F) (o : OpenTrade D F) (s : SimState D F)
        → IsBalanced k (purse o) s.cash
        → After (IsBalanced k) (settle_funding candle params funding o s)
    unfolding settle_funding
    funding_keeps candle funding o s h =
        if_elim (After (IsBalanced k))
          (not (is_zero (rate_at params funding o.next_funding_at))
            && greater_than o.remaining_qty nought)
          (record {
            holds = record {
              kept =
                  move_funding laws s.cash (funding_amount candle params funding o) o.gross_pnl
                    o.funding o.fees
                  ∙ h.kept;
              whole = h.whole;
              nonneg = h.nonneg;
            };
          })
          (record { holds = h })
