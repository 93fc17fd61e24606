-- ===== src/Backtest/Rounds.antt =====
-- backend/internal/backtesting/engine.go: what a bar does to the account: the exits, and an entry.
use crypto_market_advisor.Base.{
  ℕ, String, if◌then◌else◌, ◌≡◌, refl, sym, ap, ◌∙◌, true, Option, none, some, List, [], ◌∷◌, ◌++◌,
  All-append, if_elim, arith,
}
use crypto_market_advisor.Numbers.Decimal.{Decimal, nought}
use crypto_market_advisor.Numbers.Laws.{IsDecimal}
use crypto_market_advisor.Numbers.Sums.{total, sub-eq_of_add}
use crypto_market_advisor.Numbers.Float.{Float, Conversion, int}
use crypto_market_advisor.Domain.FeeType.{FeeType}
use crypto_market_advisor.Domain.Market.{Candle}
use crypto_market_advisor.Backtest.Params.{OpenTrade, SignalResult}
use crypto_market_advisor.Backtest.Levels.{is_nil}
use crypto_market_advisor.Backtest.State.{
  SimState, DataQuality, record_equity, mark_to_market, record_equity_point, record_reason,
  record_quality,
}
use crypto_market_advisor.Backtest.Update.{Book, update_all}
use crypto_market_advisor.Backtest.Entries.{open_trade_at}
use crypto_market_advisor.Backtest.Loop.{Replay, settle_bar, join}
use crypto_market_advisor.Backtest.Account.{
  brought, IsHeld, IsAccount, update_all-IsAccount, total-snoc,
}
use crypto_market_advisor.Backtest.Opening.{Attempt, open_trade_at-Attempt}

module _ {D F : Type 0} ⦃d : Decimal D⦄ ⦃f : Float F⦄ ⦃c : Conversion D F⦄ where
  -- What only observes the equity does not touch the cash.
  pub cash-mark_to_market :
      (s : SimState D F) (mark : F) (positions : List (OpenTrade D F)) (fee : D)
      → (mark_to_market s mark positions fee).cash ≡ s.cash
  unfolding mark_to_market record_equity
  cash-mark_to_market s mark positions fee = ground arith

module _ {D F : Type 0} where
  pub cash-record_reason :
      (s : SimState D F) (reason : String) → (record_reason s reason).cash ≡ s.cash
  unfolding record_reason
  cash-record_reason s reason = ground arith

  pub cash-record_quality :
      (s : SimState D F) (quality : DataQuality) → (record_quality s quality).cash ≡ s.cash
  unfolding record_quality
  cash-record_quality s quality = ground arith

module _ {D : Type 0} ⦃d : Decimal D⦄ (laws : IsDecimal D) (initial : D) where
  open laws use {zero-add, add_assoc, add_comm}

  fee_of_new : (fees : D) → d.sub (d.add nought nought) fees ≡ d.sub nought fees
  fee_of_new fees = ap (λ x. d.sub x fees) (zero-add nought)

  pay_entry :
      (cash fees a b : D)
      → cash ≡ d.add initial (d.add a (d.add b nought))
      → d.sub cash fees ≡ d.add initial (d.add a (d.add (d.add b (d.sub nought fees)) nought))
  pay_entry cash fees a b h = sub-eq_of_add laws cash fees _ (
      h
      ∙ ap (λ x. d.add initial (d.add a x)) (add_comm b nought ∙ zero-add b)
      ∙ rw
          (
            add_comm (d.add b (d.sub nought fees)) nought,
            zero-add (d.add b (d.sub nought fees)),
            add_assoc initial (d.add a (d.add b (d.sub nought fees))) fees,
            add_assoc a (d.add b (d.sub nought fees)) fees,
            add_assoc b (d.sub nought fees) fees,
            laws.sub-add nought fees,
            add_comm b nought,
            zero-add b,
          )
          refl)

module _ {D F : Type 0} ⦃d : Decimal D⦄ (initial : D) where
  -- A change of the state that leaves the cash leaves the account.
  pub same_cash :
      (b : Book D F) (s : SimState D F) {todo : List (OpenTrade D F)}
      → s.cash ≡ b.state.cash
      → IsAccount initial b todo
      → IsAccount initial (record b { state = s }) todo
  same_cash b s e h = record {
    done = h.done;
    finals = h.finals;
    money = e ∙ h.money;
    held = h.held;
    waiting = h.waiting;
  }

module _ {D F : Type 0} ⦃d : Decimal D⦄ ⦃f : Float F⦄ ⦃c : Conversion D F⦄ (laws : IsDecimal D)
    (initial : D) where
  open laws use {add_comm}

  -- The held trades are given to the loop that updates them.
  pub to_waiting :
      (b : Book D F) (s : SimState D F)
      → s.cash ≡ b.state.cash
      → IsAccount initial b []
      → IsAccount initial (record { trades = b.trades; held = []; state = s }) b.held
  to_waiting b s e h = record {
    done = h.done;
    finals = h.finals;
    money =
        e
        ∙ h.money
        ∙ ap (λ x. d.add initial (d.add (total brought h.done) x))
            (add_comm (total brought b.held) nought);
    held = tt;
    waiting = h.held;
  }

module _ {D F : Type 0} ⦃d : Decimal D⦄ ⦃f : Float F⦄ ⦃c : Conversion D F⦄ (laws : IsDecimal D)
    (whole_exit : f.le (int 100) (int 100) ≡ true) (initial : D) (r : Replay D F) (i : ℕ)
    (current : Candle F) where
  abbrev pub Good : Book D F → Type 0
  Good b = IsAccount initial b []

  pub settle_bar-Good : (b : Book D F) → Good b → Good (settle_bar r i current b)
  unfolding settle_bar record_equity_point
  settle_bar-Good b h =
      same_cash initial updated _
        (cash-mark_to_market updated.state current.close updated.held r.params.taker_fee_pct)
        (update_all-IsAccount laws whole_exit r.symbol r.params r.funding current initial b.held
          (record { trades = b.trades; held = []; state = marked })
          (to_waiting laws initial b marked marked-cash h))
    where
      fee : D
      fee = r.params.taker_fee_pct

      marked : SimState D F
      marked =
          if is_nil b.held
          then b.state
          else mark_to_market (mark_to_market b.state current.low b.held fee) current.high b.held
              fee

      marked-cash : marked.cash ≡ b.state.cash
      marked-cash =
          if_elim (λ (s : SimState D F). s.cash ≡ b.state.cash) (is_nil b.held) refl
            (cash-mark_to_market (mark_to_market b.state current.low b.held fee) current.high b.held
                fee
              ∙ cash-mark_to_market b.state current.low b.held fee)

      updated : Book D F
      updated =
          update_all r.symbol r.params r.funding current b.held
            (record { trades = b.trades; held = []; state = marked })

  join-Good :
      (b : Book D F) (o : Option (OpenTrade D F)) (s : SimState D F)
      → Attempt b.state b.held (o, s)
      → Good b
      → Good (join r i current b (o, s))
  unfolding join
  join-Good b none s same h = same_cash initial b s (ap (λ (t : SimState D F). t.cash) same) h
  join-Good b (some o) s (paid, gross, funding, exited, left, positive, free) h = record {
    done = h.done;
    finals = h.finals;
    money =
        cash-mark_to_market s current.close (b.held ++ (o ∷ [])) r.params.taker_fee_pct
        ∙ ap (λ (t : SimState D F). t.cash) paid
        ∙ pay_entry laws initial b.state.cash o.fees (total brought h.done) (total brought b.held)
            h.money
        ∙ ap (λ x. d.add initial (d.add (total brought h.done) (d.add x nought)))
            (ap (d.add (total brought b.held)) (sym spent) ∙ sym (total-snoc laws o b.held));
    held = All-append IsHeld b.held (o ∷ []) h.held (
      (
        rw (exited, laws.add_comm o.remaining_qty nought, laws.zero-add o.remaining_qty) left,
        rw left positive,
      ),
      tt,
    );
    waiting = tt;
  }
    where
      spent : brought o ≡ d.sub nought o.fees
      spent = rw (gross, funding) (fee_of_new laws initial o.fees)

  pub open_at-Good :
      (signal : SignalResult D F) (entry : F) (fee_type : FeeType) (b : Book D F)
      → Good b
      → Good
          (join r i current b (open_trade_at signal entry fee_type current r.params b.state b.held))
  open_at-Good signal entry fee_type b h =
      join-Good b (x.0) (x.1)
        (open_trade_at-Attempt signal entry fee_type current r.params b.state b.held) h
    where
      x : Option (OpenTrade D F) × SimState D F
      x = open_trade_at signal entry fee_type current r.params b.state b.held
