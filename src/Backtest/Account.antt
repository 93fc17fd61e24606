-- ===== src/Backtest/Account.antt =====
-- backend/internal/backtesting/engine.go: the account of a replay. The cash is the initial capital and what
-- all trades brought, the closed ones and the open ones.
use crypto_market_advisor.Base.{
  ℕ, String, ◌≡◌, refl, sym, ap, ◌∙◌, true, Option, none, some, List, [], ◌∷◌, ◌++◌, All,
  All-append,
}
use crypto_market_advisor.Numbers.Decimal.{Decimal, nought}
use crypto_market_advisor.Numbers.Laws.{IsDecimal, ◌≺◌, le_of_lt}
use crypto_market_advisor.Numbers.Sums.{total, sub-eq_of_add, eq_of_sub}
use crypto_market_advisor.Numbers.Float.{Float, Conversion, int}
use crypto_market_advisor.Domain.Market.{Candle}
use crypto_market_advisor.Backtest.Params.{BacktestParams, BacktestTrade, OpenTrade}
use crypto_market_advisor.Backtest.State.{SimState}
use crypto_market_advisor.Backtest.Exits.{finalize_trade, force_close}
use crypto_market_advisor.Backtest.Update.{
  Updated, Book, update_open_trade, add_updated, update_all, close_all,
}
use crypto_market_advisor.Backtest.Kept.{purse, After, AfterUpdate, update_keeps, force_close_keeps}
use crypto_market_advisor.Backtest.Ledger.{net, IsBalanced, exit_keeps, funding_keeps}
use crypto_market_advisor.Backtest.Fate.{Fate, update-Fate, force_close-empty}

module _ {D F : Type 0} ⦃d : Decimal D⦄ where
  -- What an open trade brought so far.
  abbrev pub brought : OpenTrade D F → D
  brought o = net (purse o)

  -- The amounts of a stored trade are those of the trade that was closed, each rounded.
  abbrev pub IsFinal : OpenTrade D F → BacktestTrade D F → Type 0
  IsFinal o t =
      (t.gross_pnl ≡ d.round 10 o.gross_pnl)
      × (t.fees ≡ d.round 10 o.fees)
      × (t.funding ≡ d.round 10 o.funding)
      × (t.net_pnl ≡ d.round 10 (d.add (d.sub t.gross_pnl t.fees) t.funding))
      × (o.exited_qty ≡ o.original_qty)

  pub data Finals : List (OpenTrade D F) → List (BacktestTrade D F) → Type 0 where
    no_trades : Finals [] []
    more_trades :
        {o : OpenTrade D F} {t : BacktestTrade D F} {os : List (OpenTrade D F)}
        {ts : List (BacktestTrade D F)}
        → IsFinal o t
        → Finals os ts
        → Finals (o ∷ os) (t ∷ ts)

  Finals-append :
      {os : List (OpenTrade D F)} {ts : List (BacktestTrade D F)} (o : OpenTrade D F)
      (t : BacktestTrade D F)
      → Finals os ts
      → IsFinal o t
      → Finals (os ++ o ∷ []) (ts ++ t ∷ [])
  Finals-append o t no_trades h = more_trades h no_trades
  Finals-append o t (more_trades k ks) h = more_trades k (Finals-append o t ks h)

  -- The quantities of an open trade: what is left and what was sold make up the whole, and something is
  -- left.
  abbrev pub IsHeld : OpenTrade D F → Type 0
  IsHeld o = (d.add o.remaining_qty o.exited_qty ≡ o.original_qty) × (nought ≺ o.remaining_qty)

  -- The account of a book, with the open trades that a loop has not come to yet.
  pub record IsAccount (initial : D) (b : Book D F) (todo : List (OpenTrade D F)) : Type 0 where
    pub done : List (OpenTrade D F)
    pub finals : Finals done b.trades
    pub money :
        b.state.cash
        ≡ d.add initial
            (d.add (total brought done) (d.add (total brought b.held) (total brought todo)))
    pub held : All IsHeld b.held
    pub waiting : All IsHeld todo

module _ {D : Type 0} ⦃d : Decimal D⦄ (laws : IsDecimal D) where
  open laws use {add_assoc, add_comm}

  -- Taking the first of the waiting trades out of the account.
  take_out :
      (i a b n t : D)
      → d.add i (d.add a (d.add b (d.add n t))) ≡ d.add (d.add i (d.add a (d.add b t))) n
  take_out i a b n t =
      rw
        (
          add_comm n t,
          sym (add_assoc b t n),
          sym (add_assoc a (d.add b t) n),
          sym (add_assoc i (d.add a (d.add b t)) n),
        )
        refl

  put_held :
      (i a b n t : D)
      → d.add (d.add i (d.add a (d.add b t))) n ≡ d.add i (d.add a (d.add (d.add b n) t))
  put_held i a b n t = sym (take_out i a b n t) ∙ rw (add_assoc b n t) refl

  put_done :
      (i a b n t : D)
      → d.add (d.add i (d.add a (d.add b t))) n ≡ d.add i (d.add (d.add a n) (d.add b t))
  put_done i a b n t =
      add_assoc i (d.add a (d.add b t)) n
      ∙ ap (d.add i) (
          add_assoc a (d.add b t) n
          ∙ ap (d.add a) (add_comm (d.add b t) n)
          ∙ sym (add_assoc a n (d.add b t)))

module _ {D F : Type 0} ⦃d : Decimal D⦄ (laws : IsDecimal D) where
  open laws use {add_assoc, add_comm}

  pub total-snoc :
      (o : OpenTrade D F) (os : List (OpenTrade D F))
      → total brought (os ++ o ∷ []) ≡ d.add (total brought os) (brought o)
  total-snoc o [] = add_comm (brought o) nought
  total-snoc o (x ∷ xs) =
      ap (d.add (brought x)) (total-snoc o xs)
      ∙ sym (add_assoc (brought x) (total brought xs) (brought o))

module _ {D F : Type 0} ⦃d : Decimal D⦄ ⦃f : Float F⦄ ⦃c : Conversion D F⦄ (laws : IsDecimal D)
    (whole_exit : f.le (int 100) (int 100) ≡ true) (symbol : String) (params : BacktestParams D F)
    (funding : ℕ → Option F) (candle : Candle F) (initial : D) where
  -- The account without one trade.
  abbrev rest_of : Book D F → List (OpenTrade D F) → List (OpenTrade D F) → D
  rest_of b done todo =
      d.add initial (d.add (total brought done) (d.add (total brought b.held) (total brought todo)))

  balanced :
      {b : Book D F} {o : OpenTrade D F} {todo : List (OpenTrade D F)}
      (h : IsAccount initial b (o ∷ todo))
      → IsBalanced (rest_of b h.done todo) (purse o) b.state.cash
  balanced {b} {o} {todo} h = record {
    kept = sub-eq_of_add laws b.state.cash (brought o) (rest_of b h.done todo) (
        h.money
        ∙ take_out laws initial (total brought h.done) (total brought b.held) (brought o)
            (total brought todo));
    whole = h.waiting.0.0;
    nonneg = le_of_lt laws nought o.remaining_qty h.waiting.0.1;
  }

  -- A trade that is closed joins those that are done.
  into_done :
      (b : Book D F) {todo : List (OpenTrade D F)} (done : List (OpenTrade D F)) (reason : String)
      (o : OpenTrade D F) (s : SimState D F)
      → Finals done b.trades
      → All IsHeld b.held
      → All IsHeld todo
      → IsBalanced (rest_of b done todo) (purse o) s.cash
      → o.remaining_qty ≡ nought
      → IsAccount initial
          (record {
            trades = b.trades ++ (finalize_trade symbol reason candle.close_time o ∷ []);
            held = b.held;
            state = s;
          })
          todo
  unfolding finalize_trade
  into_done b {todo} done reason o s finals held waiting h empty = record {
    done = done ++ o ∷ [];
    finals = Finals-append o (finalize_trade symbol reason candle.close_time o) finals (
      refl,
      refl,
      refl,
      refl,
      sym (laws.zero-add o.exited_qty) ∙ ap (λ x. d.add x o.exited_qty) (sym empty) ∙ h.whole,
    );
    money =
        eq_of_sub laws s.cash (brought o) (rest_of b done todo) h.kept
        ∙ put_done laws initial (total brought done) (total brought b.held) (brought o)
            (total brought todo)
        ∙ ap (λ x. d.add initial (d.add x (d.add (total brought b.held) (total brought todo))))
            (sym (total-snoc laws o done));
    held = held;
    waiting = waiting;
  }

  into_held :
      (b : Book D F) {todo : List (OpenTrade D F)} (done : List (OpenTrade D F)) (o : OpenTrade D F)
      (s : SimState D F)
      → Finals done b.trades
      → All IsHeld b.held
      → All IsHeld todo
      → IsBalanced (rest_of b done todo) (purse o) s.cash
      → nought ≺ o.remaining_qty
      → IsAccount initial (record { trades = b.trades; held = b.held ++ (o ∷ []); state = s }) todo
  into_held b {todo} done o s finals held waiting h left = record {
    done = done;
    finals = finals;
    money =
        eq_of_sub laws s.cash (brought o) (rest_of b done todo) h.kept
        ∙ put_held laws initial (total brought done) (total brought b.held) (brought o)
            (total brought todo)
        ∙ ap (λ x. d.add initial (d.add (total brought done) (d.add x (total brought todo))))
            (sym (total-snoc laws o b.held));
    held = All-append IsHeld b.held (o ∷ []) held ((h.whole, left), tt);
    waiting = waiting;
  }

  add_updated-IsAccount :
      (b : Book D F) {todo : List (OpenTrade D F)} (done : List (OpenTrade D F)) (o : OpenTrade D F)
      (s : SimState D F) (closed : Option String)
      → Finals done b.trades
      → All IsHeld b.held
      → All IsHeld todo
      → IsBalanced (rest_of b done todo) (purse o) s.cash
      → Fate closed o.remaining_qty
      → IsAccount initial
          (add_updated symbol params funding candle
            (record { trade = o; state = s; closed = closed })
            b)
          todo
  unfolding add_updated
  add_updated-IsAccount b done o s (some reason) finals held waiting h fate =
      into_done b done reason o s finals held waiting h fate
  add_updated-IsAccount b done o s none finals held waiting h fate =
      into_held b done o s finals held waiting h fate

  -- The loop over the open trades keeps the account.
  pub update_all-IsAccount :
      (todo : List (OpenTrade D F)) (b : Book D F)
      → IsAccount initial b todo
      → IsAccount initial (update_all symbol params funding candle todo b) []
  unfolding update_all
  update_all-IsAccount [] b h = h
  update_all-IsAccount (o ∷ todo) b h =
      update_all-IsAccount todo (add_updated symbol params funding candle u b) (
        add_updated-IsAccount b h.done u.trade u.state u.closed h.finals h.held h.waiting.1
          kept.holds fate)
    where
      u : Updated D F
      u = update_open_trade candle params funding o b.state

      kept : AfterUpdate (IsBalanced (rest_of b h.done todo)) u
      kept =
          update_keeps candle params funding (IsBalanced (rest_of b h.done todo))
            (exit_keeps laws params (rest_of b h.done todo))
            (funding_keeps laws params (rest_of b h.done todo) candle funding) o b.state
            (balanced h)

      fate : Fate u.closed u.trade.remaining_qty
      fate =
          update-Fate laws whole_exit params candle (rest_of b h.done todo) funding o b.state
            (balanced h)

  -- So does the loop that closes what is left at the end.
  pub close_all-IsAccount :
      (todo : List (OpenTrade D F)) (b : Book D F)
      → IsAccount initial b todo
      → IsAccount initial (close_all symbol params funding candle todo b) []
  unfolding close_all
  close_all-IsAccount [] b h = h
  close_all-IsAccount (o ∷ todo) b h =
      close_all-IsAccount todo
        (record {
          trades = b.trades ++ (finalize_trade symbol "end_of_period" candle.close_time (r.0) ∷ []);
          held = b.held;
          state = r.1;
        })
        (into_done b h.done "end_of_period" (r.0) (r.1) h.finals h.held h.waiting.1 kept.holds (
          force_close-empty laws whole_exit params candle (rest_of b h.done todo) funding
            "end_of_period" o b.state (balanced h)))
    where
      r : OpenTrade D F × SimState D F
      r = force_close candle params funding "end_of_period" o b.state

      kept : After (IsBalanced (rest_of b h.done todo)) r
      kept =
          force_close_keeps candle params funding (IsBalanced (rest_of b h.done todo))
            (exit_keeps laws params (rest_of b h.done todo))
            (funding_keeps laws params (rest_of b h.done todo) candle funding) "end_of_period" o
            b.state (balanced h)
