-- ===== src/Backtest/LookAhead.antt =====
-- backend/internal/backtesting/engine.go: a replay does not look ahead. Whatever happens after a moment, the
-- rounds until then are the same.
use mathlib.Core.Path.{fun_ext}
use crypto_market_advisor.Base.{
  ℕ, suc, ◌≤◌, ◌≡◌, refl, ap, ◌∙◌, if◌then◌else◌, ltb, Option, List, [], ◌∷◌, All,
}
use crypto_market_advisor.Base.Int.{ℤ, pos, ltb_ℤ, ◌-ℤ◌}
use crypto_market_advisor.Numbers.Decimal.{Decimal}
use crypto_market_advisor.Numbers.Float.{Float, Conversion}
use crypto_market_advisor.Domain.Timeframe.{Time, Timeframe}
use crypto_market_advisor.Domain.Market.{Candle}
use crypto_market_advisor.Backtest.Params.{OpenTrade}
use crypto_market_advisor.Backtest.Visible.{visible_at, benchmark_at}
use crypto_market_advisor.Backtest.Loop.{
  View, SimulationInputs, Replay, Sim, stopped, running, Run, context_done, view_at, settle_bar,
  work_pending, step_bars, analyse_view, analyse, bar, bars,
}
use crypto_market_advisor.Backtest.Update.{Book}
use crypto_market_advisor.Backtest.Entries.{PendingEntry}
use crypto_market_advisor.Backtest.Causal.{ClosesBy, Agree, visible_at-Agree}

module _ {F : Type 0} where
  abbrev pub AgreeInputs : Time → SimulationInputs F → SimulationInputs F → Type 0
  AgreeInputs until a b =
      ((tf : Timeframe) → Agree until (a.series tf) (b.series tf))
      × Agree until a.benchmark b.benchmark

module _ {D F : Type 0} where
  view_at-Agree :
      (at until : Time) (limit : ℤ) (a b : SimulationInputs F) (positions : List (OpenTrade D F))
      → at ≤ until
      → AgreeInputs until a b
      → view_at a limit at positions ≡ view_at b limit at positions
  unfolding view_at
  view_at-Agree at until limit a b positions h (series, benchmark) =
      ap
        (λ (v : Timeframe → List (Candle F)). record {
          at = at;
          visible = v;
          benchmark = benchmark_at a.benchmark at;
          positions = positions;
        })
        (fun_ext
          λ tf. (visible_at-Agree at until limit (a.series tf) (b.series tf) h (series tf)).0)
      ∙ ap
          (λ (x : List (Candle F)). record {
            at = at;
            visible = λ tf. visible_at (b.series tf) at limit;
            benchmark = x;
            positions = positions;
          })
          (visible_at-Agree at until limit a.benchmark b.benchmark h benchmark).1

module _ {D F : Type 0} ⦃d : Decimal D⦄ ⦃f : Float F⦄ ⦃c : Conversion D F⦄ (r : Replay D F)
    (until : Time) (a b : SimulationInputs F) (agree : AgreeInputs until a b) where
  analyse-Agree :
      (i : ℕ) (current : Candle F) (run : Run D F)
      → ClosesBy until current
      → analyse r i current a run ≡ analyse r i current b run
  unfolding analyse
  analyse-Agree i current run h =
      ap (λ (v : View D F). analyse_view r i current v run)
        (view_at-Agree current.close_time until r.candle_history_limit a b run.book.held h agree)

  bar-Agree :
      (i : ℕ) (current : Candle F) (run : Run D F)
      → ClosesBy until current
      → bar r i current a run ≡ bar r i current b run
  unfolding bar
  bar-Agree i current run h =
      ap
        (λ (x : Sim (Run D F)).
          if r.canceled i
          then stopped context_done
          else if ltb current.open_time r.params.date_from
          then running run
          else if ltb_ℤ (pos i -ℤ run.last_signal_index) (pos (step_bars r))
          then running worked
          else x)
        (analyse-Agree i current worked h)
    where
      p : Option (PendingEntry D F) × Book D F
      p = work_pending r i current run.pending (settle_bar r i current run.book)

      worked : Run D F
      worked = record run { pending = p.0; book = p.1 }

  -- Take two replays of one run whose candles, of the traded symbol and of the benchmark, are the same
  -- until a moment, in the order of their close times, and differ in any way after it. Through all
  -- candles that close by that moment the two do the same: every variable of the loop, with the trades,
  -- the positions and the account, is the same after them. So no decision and no exit depends on a candle
  -- that closes later.
  pub bars-Agree :
      (i : ℕ) (candles : List (Candle F)) (run : Run D F)
      → All (ClosesBy until) candles
      → bars r a i candles run ≡ bars r b i candles run
  unfolding bars
  bars-Agree i [] run h = refl
  bars-Agree i (current ∷ candles) run (h, hs) =
      ap
        (λ (x : Sim (Run D F)). elim x [
          | stopped e ↦ stopped e
          | running run' ↦ bars r a (suc i) candles run'
        ])
        (bar-Agree i current run h)
      ∙ next (bar r i current b run) (λ run'. bars-Agree (suc i) candles run' hs)
    where
      next :
          (x : Sim (Run D F))
          → ((run' : Run D F) → bars r a (suc i) candles run' ≡ bars r b (suc i) candles run')
          → ◌≡◌ {A = Sim (Run D F)}
              (elim x [ stopped e ↦ stopped e | running run' ↦ bars r a (suc i) candles run' ])
              (elim x [ stopped e ↦ stopped e | running run' ↦ bars r b (suc i) candles run' ])
      next (stopped e) same = refl
      next (running run') same = same run'
