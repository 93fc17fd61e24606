-- ===== src/Backtest/Steps.antt =====
-- backend/internal/backtesting/engine.go: what every round of `simulateSeries` keeps, if its parts do.
use crypto_market_advisor.Base.{
  ℕ, suc, ◌+◌, ◌<◌, if◌then◌else◌, ◌≡◌, refl, ◌∙◌, ◌&&◌, Option, none, some, List, [], ◌∷◌, if_elim,
  arith, inl, inr, Bool-cases, ltb, leb, length,
}
use crypto_market_advisor.Base.Int.{pos, ltb_ℤ, ◌-ℤ◌}
use crypto_market_advisor.Numbers.Decimal.{Decimal}
use crypto_market_advisor.Numbers.Float.{Float, Conversion, int}
use crypto_market_advisor.Domain.FeeType.{FeeType, maker, taker}
use crypto_market_advisor.Domain.Market.{Candle}
use crypto_market_advisor.Backtest.Params.{SignalResult}
use crypto_market_advisor.Backtest.Levels.{sign_of}
use crypto_market_advisor.Backtest.State.{SimState, record_reason, record_quality, record_bar}
use crypto_market_advisor.Backtest.Update.{Book}
use crypto_market_advisor.Backtest.Entries.{
  PendingEntry, fills, shifted, open_trade_at, open_trade_from,
}
use crypto_market_advisor.Backtest.Loop.{
  View, SignalDecision, SimError, SimulationInputs, Replay, Sim, stopped, running, Run,
  change_state, max_open, step_bars, settle_bar, join, enter, enter_if, work_pending, throw_dice,
  act_on, count_decision, follow, analyse, analyse_view, bar, bars, view_at, is_llm,
  max_consecutive_llm_failures,
}
use crypto_market_advisor.Backtest.Rounds.{cash-record_reason, cash-record_quality}

-- What holds of the book of a replay that has not stopped with an error.
module _ {D F : Type 0} (P : Book D F → Type 0) where
  pub data HoldsIn : Sim (Run D F) → Type 0 where
    ended : {e : SimError} → HoldsIn (stopped e)
    goes : {run : Run D F} → P run.book → HoldsIn (running run)

module _ {D F : Type 0} ⦃d : Decimal D⦄ ⦃f : Float F⦄ ⦃c : Conversion D F⦄ (r : Replay D F)
    (P : Book D F → Type 0)
    (settle_keeps : (i : ℕ) (current : Candle F) (b : Book D F)
      → P b
      → P (settle_bar r i current b))
    (open_keeps : (i : ℕ) (current : Candle F) (signal : SignalResult D F) (entry : F)
        (fee_type : FeeType) (b : Book D F)
      → length b.held < max_open r.params
      → P b
      → P (
          join r i current b (open_trade_at signal entry fee_type current r.params b.state b.held)))
    (notes_keep : (b : Book D F) (s : SimState D F)
      → s.cash ≡ b.state.cash
      → P b
      → P (record b { state = s })) where
  module _ (i : ℕ) (current : Candle F) where
    enter_keeps :
        (signal : SignalResult D F) (b : Book D F)
        → length b.held < max_open r.params
        → P b
        → P (enter r i current signal b)
    unfolding enter open_trade_from
    enter_keeps signal b free h =
        open_keeps i current signal
          (f.mul current.close (
            f.add (int 1) (
              f.mul (sign_of signal.direction)
                (f.div (c.to_float r.params.slippage_pct) (int 100)))))
          taker b free h

    work_pending_keeps :
        (p : Option (PendingEntry D F)) (b : Book D F) → P b → P (work_pending r i current p b).1
    unfolding work_pending
    work_pending_keeps none b h = h
    work_pending_keeps (some p) b h =
        if_elim Next (ltb p.expires_at i)
          (notes_keep b (record_reason unfilled "entry_never_filled")
            (cash-record_reason unfilled "entry_never_filled") h)
          (elim (Bool-cases (leb (max_open r.params) (length b.held))) [
            | inl full ↦ rw full h
            | inr free ↦ rw free (
                if_elim Next (fills p current)
                  (open_keeps i current (shifted p) p.limit maker b (ground (arith, free)) h) h)
          ])
      where
        unfilled : SimState D F
        unfilled = record (b.state) { unfilled_entries = suc b.state.unfilled_entries }

        Next : Option (PendingEntry D F) × Book D F → Type 0
        Next x = P (x.1)

    enter_if_keeps :
        (signal : Option (SignalResult D F)) (b : Book D F)
        → length b.held < max_open r.params
        → P b
        → P (enter_if r i current signal b)
    enter_if_keeps none b free h = h
    enter_if_keeps (some signal) b free h = enter_keeps signal b free h

    throw_dice_keeps :
        (view : View D F) (run : Run D F)
        → length run.book.held < max_open r.params
        → P run.book
        → P (throw_dice r i current view run).book
    unfolding throw_dice
    throw_dice_keeps view run free h =
        notes_keep book (record_reason book.state "random_entry")
          (cash-record_reason book.state "random_entry")
          (if_elim P (f.lt (r.dice run.throws) r.random_entry_chance)
            (enter_if_keeps (r.random_entry_signal view current) run.book free h) h)
      where
        book : Book D F
        book =
            if f.lt (r.dice run.throws) r.random_entry_chance
            then enter_if r i current (r.random_entry_signal view current) run.book
            else run.book

    act_on_keeps :
        (signal : SignalResult D F) (run : Run D F)
        → length run.book.held < max_open r.params
        → P run.book
        → P (act_on r i current signal run).book
    unfolding act_on
    act_on_keeps signal run free h = ground (arith, enter_keeps signal run.book free h)

    count_decision_keeps :
        (decision : SignalDecision D F) (b : Book D F)
        → P b
        → P (change_state (count_decision r i current decision) b)
    unfolding count_decision
    count_decision_keeps decision b h =
        notes_keep b (count_decision r i current decision b.state)
          (cash-record_reason (record_quality counted decision.quality) decision.reason
            ∙ cash-record_quality counted decision.quality)
          h
      where
        counted : SimState D F
        counted = record (b.state) {
          inferences = b.state.inferences + decision.inference_cost;
          cache_hits = b.state.cache_hits + decision.cache_hit;
        }

    follow_keeps :
        (decision : SignalDecision D F) (run : Run D F)
        → length run.book.held < max_open r.params
        → P run.book
        → HoldsIn P (follow r i current decision run)
    unfolding follow
    follow_keeps decision run free h =
        if_elim (HoldsIn P) (ltb 0 decision.inference_cost && r.pauses && r.canceled_in_pause i)
          ended
          (if_elim (HoldsIn P) decision.failed
            (if_elim (HoldsIn P)
              (is_llm r.mode && leb max_consecutive_llm_failures (suc run.consecutive_failures))
              ended (goes counted))
            (acted decision.signal))
      where
        counted : P (change_state (count_decision r i current decision) run.book)
        counted = count_decision_keeps decision run.book h

        well : Run D F
        well = record run {
          book = change_state (count_decision r i current decision) run.book;
          consecutive_failures = 0;
        }

        acted :
            (signal : Option (SignalResult D F))
            → HoldsIn P (elim signal [
              | none ↦ running well
              | some signal ↦ running (act_on r i current signal well)
            ])
        acted none = goes counted
        acted (some signal) = goes (act_on_keeps signal well free counted)

    analyse_keeps :
        (inputs : SimulationInputs F) (run : Run D F)
        → P run.book
        → HoldsIn P (analyse r i current inputs run)
    unfolding analyse analyse_view record_bar
    analyse_keeps inputs run h =
        elim (Bool-cases (leb (max_open r.params) (length run.book.held))) [
          | inl full ↦ rw full (goes good)
          | inr room ↦
              let free : length run.book.held < max_open r.params = ground (arith, room) in
              rw room (
                if_elim (HoldsIn P) (f.lt (int 0) r.random_entry_chance)
                  (goes (throw_dice_keeps view counted free good))
                  (follow_keeps (r.decide view) counted free good))
        ]
      where
        view : View D F
        view = view_at inputs r.candle_history_limit current.close_time run.book.held

        state : SimState D F
        state =
            record_bar
              (record (run.book.state) { analysis_points = suc run.book.state.analysis_points })
              current.close_time

        counted : Run D F
        counted = record run {
          last_signal_index = pos i;
          book = record (run.book) { state = state };
        }

        good : P counted.book
        good = notes_keep run.book state refl h

    bar_keeps :
        (inputs : SimulationInputs F) (run : Run D F)
        → P run.book
        → HoldsIn P (bar r i current inputs run)
    unfolding bar
    bar_keeps inputs run h = if_elim (HoldsIn P) (r.canceled i) ended (
        if_elim (HoldsIn P) (ltb current.open_time r.params.date_from) (goes h) (
          if_elim (HoldsIn P) (ltb_ℤ (pos i -ℤ run.last_signal_index) (pos (step_bars r)))
            (goes worked) (analyse_keeps inputs (record run { pending = x.0; book = x.1 }) worked)))
      where
        x : Option (PendingEntry D F) × Book D F
        x = work_pending r i current run.pending (settle_bar r i current run.book)

        worked : P (x.1)
        worked =
            work_pending_keeps run.pending (settle_bar r i current run.book)
              (settle_keeps i current run.book h)

  -- What the exits of a bar, an entry into a book with room and a note in the state keep, the loop keeps.
  pub bars_keep :
      (inputs : SimulationInputs F) (i : ℕ) (candles : List (Candle F)) (run : Run D F)
      → P run.book
      → HoldsIn P (bars r inputs i candles run)
  unfolding bars
  bars_keep inputs i [] run h = goes h
  bars_keep inputs i (current ∷ candles) run h =
      next (bar r i current inputs run) (bar_keeps i current inputs run h)
        (λ run' k. bars_keep inputs (suc i) candles run' k)
    where
      next :
          (x : Sim (Run D F))
          → HoldsIn P x
          → ((run' : Run D F) → P run'.book → HoldsIn P (bars r inputs (suc i) candles run'))
          → HoldsIn P
              (elim x [ stopped e ↦ stopped e | running run' ↦ bars r inputs (suc i) candles run' ])
      next (stopped e) ended rest = ended
      next (running run') (goes k) rest = rest run' k
