-- ===== src/Backtest/Capacity.antt =====
-- backend/internal/backtesting/engine.go: the book never holds more positions than the run allows.
use crypto_market_advisor.Base.{
  ℕ, ◌+◌, ◌≤◌, ◌<◌, if◌then◌else◌, Option, none, some, List, [], ◌∷◌, length, length-append, arith,
}
use crypto_market_advisor.Numbers.Decimal.{Decimal}
use crypto_market_advisor.Numbers.Float.{Float, Conversion}
use crypto_market_advisor.Domain.Market.{Candle}
use crypto_market_advisor.Backtest.Params.{OpenTrade}
use crypto_market_advisor.Backtest.Levels.{is_nil}
use crypto_market_advisor.Backtest.State.{SimState, mark_to_market}
use crypto_market_advisor.Backtest.Update.{
  Updated, Book, update_open_trade, add_updated, update_all,
}
use crypto_market_advisor.Backtest.Entries.{open_trade_at}
use crypto_market_advisor.Backtest.Steps.{HoldsIn, bars_keep}
use crypto_market_advisor.Backtest.Loop.{
  SimulationInputs, Replay, Run, max_open, settle_bar, join, bars, start,
}

module _ {D F : Type 0} ⦃d : Decimal D⦄ ⦃f : Float F⦄ ⦃c : Conversion D F⦄ (r : Replay D F) where
  -- At least one position may be open.
  max_open_pos : 0 < max_open r.params
  unfolding max_open
  max_open_pos = ground arith

  abbrev pub Fits : Book D F → Type 0
  Fits b = length b.held ≤ max_open r.params

  module _ (i : ℕ) (current : Candle F) where
    length-add_updated :
        (u : Updated D F) (b : Book D F)
        → length (add_updated r.symbol r.params r.funding current u b).held ≤ length b.held + 1
    unfolding add_updated
    length-add_updated u b = ground (arith, length-append b.held (u.trade ∷ []))

    length-update_all :
        (todo : List (OpenTrade D F)) (b : Book D F)
        → length (update_all r.symbol r.params r.funding current todo b).held
          ≤ length b.held + length todo
    unfolding update_all
    length-update_all [] b = omega arith
    length-update_all (o ∷ todo) b = omega (
      arith,
      length-add_updated (update_open_trade current r.params r.funding o b.state) b,
      length-update_all todo (
          add_updated r.symbol r.params r.funding current
            (update_open_trade current r.params r.funding o b.state) b),
    )

    settle_bar-Fits : (b : Book D F) → Fits b → Fits (settle_bar r i current b)
    unfolding settle_bar
    settle_bar-Fits b h = omega (
      arith,
      h,
      length-update_all b.held (record {
        trades = b.trades;
        held = [];
        state =
            if is_nil b.held
            then b.state
            else mark_to_market (mark_to_market b.state current.low b.held r.params.taker_fee_pct)
                current.high b.held r.params.taker_fee_pct;
      }),
    )

    length-join :
        (b : Book D F) (o : Option (OpenTrade D F)) (s : SimState D F)
        → length (join r i current b (o, s)).held ≤ length b.held + 1
    unfolding join
    length-join b none s = omega arith
    length-join b (some o) s = omega (arith, length-append b.held (o ∷ []))

  pub start-Fits : Fits (start r).book
  unfolding start
  start-Fits = omega arith

  -- The book of a replay never holds more positions than the run allows, after any number of bars and
  -- whatever the decisions are; the limit is the configured number, or one if that is not positive.
  pub bars-Fits :
      (inputs : SimulationInputs F) (i : ℕ) (candles : List (Candle F)) (run : Run D F)
      → length run.book.held ≤ max_open r.params
      → HoldsIn Fits (bars r inputs i candles run)
  bars-Fits =
      bars_keep r Fits settle_bar-Fits
        (λ i current signal entry fee_type b free h.
          let x = open_trade_at signal entry fee_type current r.params b.state b.held in
          omega (arith, length-join i current b (x.0) (x.1), free))
        (λ b s e h. h)
