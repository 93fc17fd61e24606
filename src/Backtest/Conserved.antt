-- ===== src/Backtest/Conserved.antt =====
-- backend/internal/backtesting/engine.go: the account at the end of a replay.
use crypto_market_advisor.Base.{
  ◌≡◌, refl, sym, ap, ◌∙◌, subst, true, Option, none, some, List, [], ◌∷◌, inl, inr, Bool-cases,
  get_last?-none, get_last?,
}
use crypto_market_advisor.Numbers.Decimal.{Decimal, nought}
use crypto_market_advisor.Numbers.Laws.{IsDecimal}
use crypto_market_advisor.Numbers.Sums.{total}
use crypto_market_advisor.Numbers.Float.{Float, Conversion, int}
use crypto_market_advisor.Domain.Market.{Candle}
use crypto_market_advisor.Backtest.Params.{BacktestParams, OpenTrade}
use crypto_market_advisor.Backtest.Levels.{is_nil, is_nil→≡}
use crypto_market_advisor.Backtest.State.{new_sim_state, record_equity_point, mark_to_market}
use crypto_market_advisor.Backtest.Update.{Book, close_all}
use crypto_market_advisor.Backtest.Visible.{drop}
use crypto_market_advisor.Backtest.Loop.{
  SimulationInputs, Replay, Sim, stopped, running, Run, bars, start, finish_at, finish_book,
  simulate, min_candles,
}
use crypto_market_advisor.Backtest.Account.{
  brought, Finals, no_trades, IsAccount, close_all-IsAccount,
}
use crypto_market_advisor.Backtest.Rounds.{
  cash-mark_to_market, same_cash, to_waiting, settle_bar-Good, open_at-Good,
}
use crypto_market_advisor.Backtest.Steps.{HoldsIn, goes, bars_keep}

module _ {D F : Type 0} ⦃d : Decimal D⦄ ⦃f : Float F⦄ ⦃c : Conversion D F⦄ (laws : IsDecimal D)
    (whole_exit : f.le (int 100) (int 100) ≡ true) (initial : D) (r : Replay D F) where
  abbrev Good : Book D F → Type 0
  Good b = IsAccount initial b []

  held-close_all :
      (last : Candle F) (todo : List (OpenTrade D F)) (b : Book D F)
      → (close_all r.symbol r.params r.funding last todo b).held ≡ b.held
  unfolding close_all
  held-close_all last [] b = refl
  held-close_all last (o ∷ todo) b = held-close_all last todo _

  -- What is known once the replay is over.
  abbrev Over : Book D F → Type 0
  Over b = Good b × (b.held ≡ [])

  finish_at-Over : (last : Candle F) (b : Book D F) → Good b → Over (finish_at r last b)
  unfolding finish_at
  finish_at-Over last b h = elim (Bool-cases (is_nil b.held)) [
    | inl n ↦ rw n (h, is_nil→≡ b.held n)
    | inr n ↦ rw n (
      same_cash initial closed
          (record_equity_point (mark_to_market closed.state last.close [] r.params.taker_fee_pct)
            last.close_time)
          (cash-mark_to_market closed.state last.close [] r.params.taker_fee_pct)
          (close_all-IsAccount laws whole_exit r.symbol r.params r.funding last initial b.held
            (record { trades = b.trades; held = []; state = b.state })
            (to_waiting laws initial b b.state refl h)),
      held-close_all last b.held (record { trades = b.trades; held = []; state = b.state }),
    )
  ]
    where
      closed : Book D F
      closed =
          close_all r.symbol r.params r.funding last b.held
            (record { trades = b.trades; held = []; state = b.state })

  finish_book-Over :
      (candles : List (Candle F)) (b : Book D F)
      → Good b
      → ((candles ≡ []) → b.held ≡ [])
      → Over (finish_book r candles b)
  unfolding finish_book
  finish_book-Over candles b h empty = by_last (get_last? candles) refl
    where
      by_last :
          (x : Option (Candle F))
          → get_last? candles ≡ x
          → Over (elim x [ none ↦ b | some last ↦ finish_at r last b ])
      by_last none e = (h, empty (get_last?-none candles e))
      by_last (some last) e = finish_at-Over last b h

  -- The end of `simulate`, for what the loop left.
  abbrev end_of : List (Candle F) → Sim (Run D F) → Sim (Book D F)
  end_of candles x = elim x [
    | stopped e ↦ stopped e
    | running run ↦ running (finish_book r candles run.book)
  ]

  end_of-Over :
      (candles : List (Candle F)) (x : Sim (Run D F)) (b : Book D F)
      → HoldsIn Good x
      → ((candles ≡ []) → x ≡ running (start r))
      → end_of candles x ≡ running b
      → Over b
  unfolding start
  end_of-Over candles (stopped e) b h empty eq = cc
  end_of-Over candles (running run) b (goes h) empty eq =
      subst Over {x = finish_book r candles run.book} {y = b} (cc) (
        finish_book-Over candles run.book h
          (λ n. ap (λ (x : Run D F). x.book.held) {x = run} {y = start r} (same (empty n))))
    where
      same : {x y : Run D F} → running x ≡ running y → x ≡ y
      same e = cc

module _ {D F : Type 0} ⦃d : Decimal D⦄ ⦃f : Float F⦄ where
  -- The initial capital of a run.
  abbrev pub capital : BacktestParams D F → D
  unfolding new_sim_state
  capital params = (new_sim_state params).initial

module _ {D F : Type 0} ⦃d : Decimal D⦄ ⦃f : Float F⦄ ⦃c : Conversion D F⦄ (laws : IsDecimal D)
    (whole_exit : f.le (int 100) (int 100) ≡ true) (r : Replay D F) where
  start-Good : IsAccount (capital r.params) (start r).book []
  unfolding start new_sim_state
  start-Good = record {
    done = [];
    finals = no_trades;
    money =
        sym (laws.add_comm (capital r.params) nought ∙ laws.zero-add (capital r.params))
        ∙ ap (d.add (capital r.params))
            (sym (laws.zero-add nought) ∙ ap (d.add nought) (sym (laws.zero-add nought)));
    held = tt;
    waiting = tt;
  }

  -- A replay that ends without an error leaves no position open, and its books balance: the final cash is
  -- the initial capital and what the trades brought, that is their gross profits and funding less their
  -- fees. Each stored trade is one of these, with its amounts rounded to ten digits and its net profit
  -- computed from the rounded amounts, and was closed in full. The values of `decimal` are assumed to
  -- obey its laws, and 100 is assumed to be at most 100 as a float.
  pub simulate-IsConserved :
      (inputs : SimulationInputs F) (b : Book D F)
      → simulate r inputs ≡ running b
      → (b.held ≡ [])
        × ((done : List (OpenTrade D F)) × Finals done b.trades
            × (b.state.cash ≡ d.add (capital r.params) (total brought done)))
  unfolding simulate bars
  simulate-IsConserved inputs b h =
      let (account, empty) =
        end_of-Over laws whole_exit (capital r.params) r candles
          (bars r inputs min_candles (drop min_candles candles) (start r)) b
          (bars_keep r (λ x. IsAccount (capital r.params) x [])
            (settle_bar-Good laws whole_exit (capital r.params) r)
            (λ i current signal entry fee_type x free k.
              open_at-Good laws whole_exit (capital r.params) r i current signal entry fee_type x k)
            (λ x s e k. same_cash (capital r.params) x s e k) inputs min_candles
            (drop min_candles candles) (start r) start-Good)
          (λ e. rw e refl) h in
      (
        empty,
        (
          account.done,
          account.finals,
          account.money
              ∙ ap
                  (λ x.
                    d.add (capital r.params)
                      (d.add (total brought account.done) (d.add (total brought x) nought)))
                  empty
              ∙ ap (d.add (capital r.params)) (
                  ap (d.add (total brought account.done)) (laws.zero-add nought)
                  ∙ laws.add_comm (total brought account.done) nought
                  ∙ laws.zero-add (total brought account.done)),
        ),
      )
    where
      candles : List (Candle F)
      candles = inputs.series r.timeframe
