-- ===== src/Backtest/Loop.antt =====
-- backend/internal/backtesting/engine.go: `simulateSeries`, the replay of a series. What turns the visible
-- candles into a decision (the analysis, the strategies, the model) is an argument of the replay, and so
-- are the dice and what the context says at a bar. Logging and the report of progress are left out.
use crypto_market_advisor.Base.{
  ℕ, suc, ◌+◌, ◌/◌, String, Bool, true, false, ◌&&◌, if◌then◌else◌, Option, none, some, List, [],
  ◌∷◌, ◌++◌, ltb, leb, length, get_last?,
}
use crypto_market_advisor.Base.Int.{ℤ, pos, pos_part, leb_ℤ, ltb_ℤ, ◌-ℤ◌}
use crypto_market_advisor.Numbers.Decimal.{Decimal}
use crypto_market_advisor.Numbers.Float.{Float, Conversion, int}
use crypto_market_advisor.Domain.Timeframe
use crypto_market_advisor.Domain.Timeframe.{Time, Timeframe}
use crypto_market_advisor.Domain.FeeType.{maker}
use crypto_market_advisor.Domain.Market.{Candle}
use crypto_market_advisor.Backtest.Params.{
  BacktestMode, llm, BacktestParams, OpenTrade, SignalResult,
}
use crypto_market_advisor.Backtest.Levels.{is_nil, sign_of}
use crypto_market_advisor.Backtest.State.{
  SimState, DataQuality, new_sim_state, mark_to_market, record_equity_point, record_reason,
  record_bar, record_quality,
}
use crypto_market_advisor.Backtest.Update.{Book, update_all, close_all}
use crypto_market_advisor.Backtest.Entries.{
  PendingEntry, fills, shifted, open_trade_at, open_trade_from,
}
use crypto_market_advisor.Backtest.Visible.{drop, visible_at, benchmark_at}

-- What a decision sees.
pub record View (D F : Type 0) : Type 0 where
  pub at : Time
  pub visible : Timeframe → List (Candle F)
  pub benchmark : List (Candle F)
  pub positions : List (OpenTrade D F)

-- `signalDecision`, and whether it came with an error.
pub record SignalDecision (D F : Type 0) : Type 0 where
  pub signal : Option (SignalResult D F)
  pub reason : String
  pub quality : DataQuality
  pub inference_cost : ℕ
  pub cache_hit : ℕ
  pub failed : Bool

-- `SimulationInputs` as far as they are candles. A missing timeframe has no candles.
pub record SimulationInputs (F : Type 0) : Type 0 where
  pub series : Timeframe → List (Candle F)
  pub benchmark : List (Candle F)

-- The run, and all else that the replay depends on. `dice` are the numbers of the random source in their
-- order, `canceled` says at which bars the context is done, and `canceled_in_pause` in which pauses.
pub record Replay (D F : Type 0) : Type 0 where
  pub symbol : String
  pub mode : BacktestMode
  pub timeframe : Timeframe
  pub params : BacktestParams D F
  pub funding : ℕ → Option F
  pub candle_history_limit : ℤ
  pub random_entry_chance : F
  pub dice : ℕ → F
  pub random_entry_signal : View D F → Candle F → Option (SignalResult D F)
  pub decide : View D F → SignalDecision D F
  pub pauses : Bool
  pub canceled : ℕ → Bool
  pub canceled_in_pause : ℕ → Bool
  pub parse_duration : String → Option ℤ

pub data SimError : Type 0 where
  context_done : SimError
  model_failed : (times : ℕ) → SimError

pub data Sim (A : Type 0) : Type 0 where
  stopped : SimError → Sim A
  running : A → Sim A

-- The variables of the loop.
pub record Run (D F : Type 0) : Type 0 where
  pub book : Book D F
  pub pending : Option (PendingEntry D F)
  pub last_signal_index : ℤ
  pub consecutive_failures : ℕ
  pub throws : ℕ

-- features.MinCandles
abbrev pub min_candles : ℕ
min_candles = 30

-- MaxConsecutiveLLMFailures
abbrev pub max_consecutive_llm_failures : ℕ
max_consecutive_llm_failures = 5

abbrev pub is_llm : BacktestMode → Bool
is_llm llm = true
is_llm _ = false

module _ {D F : Type 0} where
  unfoldable pub max_open : BacktestParams D F → ℕ
  max_open params =
      if leb_ℤ params.max_open_positions (pos 0) then 1 else pos_part params.max_open_positions

  unfoldable pub valid_bars : BacktestParams D F → ℕ
  valid_bars params =
      if leb_ℤ params.entry_valid_bars (pos 0) then 3 else pos_part params.entry_valid_bars

  -- `stepBars`. The timeframe of a run is one with a duration.
  unfoldable pub step_bars : Replay D F → ℕ
  unfolding Timeframe.duration
  step_bars r = elim (r.parse_duration r.params.analysis_interval) [
    | none ↦ 1
    | some length ↦
        if ltb_ℤ (pos (Timeframe.duration r.timeframe)) length
        then pos_part length / Timeframe.duration r.timeframe
        else 1
  ]

  unfoldable pub view_at : SimulationInputs F → ℤ → Time → List (OpenTrade D F) → View D F
  unfolding visible_at benchmark_at
  view_at inputs limit at positions = record {
    at = at;
    visible = λ tf. visible_at (inputs.series tf) at limit;
    benchmark = benchmark_at inputs.benchmark at;
    positions = positions;
  }

  abbrev pub change_state : (SimState D F → SimState D F) → Book D F → Book D F
  change_state change b = record b { state = change b.state }

module _ {D F : Type 0} ⦃d : Decimal D⦄ ⦃f : Float F⦄ ⦃c : Conversion D F⦄ (r : Replay D F) (i : ℕ)
    (current : Candle F) where
  -- The marks at the two extremes of the bar, the exits, and the mark at its close.
  unfoldable pub settle_bar : Book D F → Book D F
  unfolding mark_to_market update_all record_equity_point
  settle_bar b =
      let fee = r.params.taker_fee_pct in
      let marked =
        if is_nil b.held
        then b.state
        else mark_to_market (mark_to_market b.state current.low b.held fee) current.high b.held
            fee in
      let updated =
        update_all r.symbol r.params r.funding current b.held
          (record { trades = b.trades; held = []; state = marked }) in
      change_state
        (λ s.
          record_equity_point (mark_to_market s current.close updated.held fee) current.close_time)
        updated

  -- What an attempt to open leaves: a position joins the book, and the equity is marked again.
  unfoldable pub join : Book D F → Option (OpenTrade D F) × SimState D F → Book D F
  unfolding mark_to_market
  join b (none, s) = record b { state = s }
  join b (some position, s) =
      let held = b.held ++ (position ∷ []) in
      record {
        trades = b.trades;
        held = held;
        state = mark_to_market s current.close held r.params.taker_fee_pct;
      }

  unfoldable pub enter : SignalResult D F → Book D F → Book D F
  unfolding join open_trade_from
  enter signal b = join b (open_trade_from signal current r.params b.state b.held)

  abbrev pub enter_if : Option (SignalResult D F) → Book D F → Book D F
  enter_if none b = b
  enter_if (some signal) b = enter signal b

  -- The resting entry: expired, crowded out, filled, or kept.
  unfoldable pub work_pending :
      Option (PendingEntry D F) → Book D F → Option (PendingEntry D F) × Book D F
  unfolding join open_trade_at fills shifted max_open record_reason
  work_pending none b = (none, b)
  work_pending (some p) b =
      if ltb p.expires_at i
      then (
        none,
        change_state
            (λ s.
              record_reason (record s { unfilled_entries = suc s.unfilled_entries })
                "entry_never_filled")
            b,
      )
      else if leb (max_open r.params) (length b.held)
      then (none, b)
      else if fills p current
      then (none, join b (open_trade_at (shifted p) p.limit maker current r.params b.state b.held))
      else (some p, b)

  -- The control group: a throw of the dice in place of a decision.
  unfoldable pub throw_dice : View D F → Run D F → Run D F
  unfolding enter record_reason
  throw_dice view run =
      let entered = enter_if (r.random_entry_signal view current) run.book in
      record run {
        throws = suc run.throws;
        book =
            change_state (λ s. record_reason s "random_entry")
              (if f.lt (r.dice run.throws) r.random_entry_chance then entered else run.book);
      }

  -- A signal becomes a resting order, or a position at once.
  unfoldable pub act_on : SignalResult D F → Run D F → Run D F
  unfolding enter valid_bars
  act_on signal run =
      let pullback = c.to_float r.params.entry_pullback_atr in
      let limit =
        f.sub signal.reference (f.mul (f.mul (sign_of signal.direction) pullback) signal.atr) in
      if f.lt (int 0) pullback && f.lt (int 0) signal.atr
      then if f.lt (int 0) limit
        then record run {
          pending =
              some
                (record { signal = signal; limit = limit; expires_at = i + valid_bars r.params });
        }
        else run
      else record run { book = enter signal run.book }

  -- The records that a decision leaves.
  unfoldable pub count_decision : SignalDecision D F → SimState D F → SimState D F
  unfolding record_quality record_reason
  count_decision decision s =
      record_reason
        (record_quality
          (record s {
            inferences = s.inferences + decision.inference_cost;
            cache_hits = s.cache_hits + decision.cache_hit;
          })
          decision.quality)
        decision.reason

  -- What follows a decision.
  unfoldable pub follow : SignalDecision D F → Run D F → Sim (Run D F)
  unfolding act_on count_decision
  follow decision run =
      let counted = record run { book = change_state (count_decision decision) run.book } in
      let failures = suc run.consecutive_failures in
      let well = record counted { consecutive_failures = 0 } in
      if ltb 0 decision.inference_cost && r.pauses && r.canceled_in_pause i
      then stopped context_done
      else if decision.failed
      then if is_llm r.mode && leb max_consecutive_llm_failures failures
        then stopped (model_failed failures)
        else running (record counted { consecutive_failures = failures })
      else elim decision.signal [ none ↦ running well | some signal ↦ running (act_on signal well) ]

  -- An analysis point, with what it sees.
  unfoldable pub analyse_view : View D F → Run D F → Sim (Run D F)
  unfolding throw_dice follow max_open record_bar
  analyse_view view run =
      let counted = record run {
        last_signal_index = pos i;
        book =
            change_state
              (λ s.
                record_bar (record s { analysis_points = suc s.analysis_points })
                  current.close_time)
              run.book;
      } in
      if leb (max_open r.params) (length run.book.held)
      then running counted
      else if f.lt (int 0) r.random_entry_chance
      then running (throw_dice view counted)
      else follow (r.decide view) counted

  unfoldable pub analyse : SimulationInputs F → Run D F → Sim (Run D F)
  unfolding analyse_view view_at
  analyse inputs run =
      analyse_view (view_at inputs r.candle_history_limit current.close_time run.book.held) run

  -- One round of the loop.
  unfoldable pub bar : SimulationInputs F → Run D F → Sim (Run D F)
  unfolding settle_bar work_pending analyse step_bars ◌-ℤ◌
  bar inputs run =
      let (pending, book) = work_pending run.pending (settle_bar run.book) in
      let worked = record run { pending = pending; book = book } in
      if r.canceled i
      then stopped context_done
      else if ltb current.open_time r.params.date_from
      then running run
      else if ltb_ℤ (pos i -ℤ run.last_signal_index) (pos (step_bars r))
      then running worked
      else analyse inputs worked

module _ {D F : Type 0} ⦃d : Decimal D⦄ ⦃f : Float F⦄ ⦃c : Conversion D F⦄ (r : Replay D F) where
  -- The loop, from bar i on.
  unfoldable pub bars : SimulationInputs F → (i : ℕ) → List (Candle F) → Run D F → Sim (Run D F)
  unfolding bar
  bars inputs i [] run = running run
  bars inputs i (current ∷ candles) run = elim (bar r i current inputs run) [
    | stopped e ↦ stopped e
    | running next ↦ bars inputs (suc i) candles next
  ]

  unfoldable pub start : Run D F
  unfolding new_sim_state step_bars ◌-ℤ◌
  start = record {
    book = record { trades = []; held = []; state = new_sim_state r.params };
    pending = none;
    last_signal_index = pos 0 -ℤ pos (step_bars r);
    consecutive_failures = 0;
    throws = 0;
  }

  -- What is open at the end is closed at the last price.
  unfoldable pub finish_at : Candle F → Book D F → Book D F
  unfolding close_all mark_to_market record_equity_point
  finish_at last b =
      if is_nil b.held
      then b
      else change_state
          (λ s.
            record_equity_point (mark_to_market s last.close [] r.params.taker_fee_pct)
              last.close_time)
          (close_all r.symbol r.params r.funding last b.held
            (record { trades = b.trades; held = []; state = b.state }))

  -- Without candles nothing is open.
  unfoldable pub finish_book : List (Candle F) → Book D F → Book D F
  unfolding finish_at
  finish_book candles b = elim (get_last? candles) [ none ↦ b | some last ↦ finish_at last b ]

  -- `simulateSeries`, up to the metrics and the curve, which are read off the book.
  unfoldable pub simulate : SimulationInputs F → Sim (Book D F)
  unfolding bars finish_book
  simulate inputs =
      let candles = inputs.series r.timeframe in
      elim (bars inputs min_candles (drop min_candles candles) start) [
        | stopped e ↦ stopped e
        | running run ↦ running (finish_book candles run.book)
      ]
