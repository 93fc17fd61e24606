-- ===== src/Backtest/State.antt =====
-- backend/internal/backtesting/metrics.go: `simState`, the equity and the counters of a run. The counts of
-- reasons are a list of pairs, the data issues a list without repetitions, in the order of their first
-- occurrence.
use text.Mathlib.Text.{◌==◌ as str_eq}
use crypto_market_advisor.Base.{
  ℕ, zero, suc, ◌-◌, String, Bool, ◌&&◌, ◌||◌, if◌then◌else◌, Option, none, some, List, [], ◌∷◌,
  ◌++◌, ltb, leb, ◌==◌, length, get_elem?, get_last?,
}
use crypto_market_advisor.Base.Int.{ℤ, pos, negsuc}
use crypto_market_advisor.Numbers.Decimal.{
  Decimal, nought, hundred, greater_than, less_than, less_than_or_equal, is_zero,
}
use crypto_market_advisor.Numbers.Float.{Float, Conversion, int}
use crypto_market_advisor.Domain.Timeframe.{Time}
use crypto_market_advisor.Domain.Direction
use crypto_market_advisor.Domain.Kinds.{DataQualityStatus, ok}
use crypto_market_advisor.Backtest.Params.{BacktestParams, EquityPoint, OpenTrade}

pub record SimState (D F : Type 0) : Type 0 where
  pub cash : D
  pub initial : D
  pub last_equity : D
  pub peak_equity : D
  pub max_drawdown_pct : F
  pub inferences : ℕ
  pub cache_hits : ℕ
  pub degraded_steps : ℕ
  pub analysis_points : ℕ
  pub unfilled_entries : ℕ
  pub reasons : List (String × ℕ)
  pub replay_from : Time
  pub replay_to : Time
  pub data_issues : List String
  pub curve : List (EquityPoint F)

-- Of domain.DataQuality what `recordQuality` reads; `none` is the empty status.
pub record DataQuality : Type 0 where
  pub status : Option DataQualityStatus
  pub missing_fields : List String

abbrev pub is_fine : Option DataQualityStatus → Bool
is_fine none = Bool.true
is_fine (some ok) = Bool.true
is_fine (some _) = Bool.false

-- `m[k]++`
unfoldable pub increment : String → List (String × ℕ) → List (String × ℕ)
increment k [] = (k, 1) ∷ []
increment k ((n, v) ∷ rest) =
    let later = increment k rest in if str_eq n k then (n, suc v) ∷ rest else (n, v) ∷ later

-- `m[k] = struct{}{}`
unfoldable pub add_key : String → List String → List String
add_key k [] = k ∷ []
add_key k (n ∷ rest) = let later = add_key k rest in if str_eq n k then n ∷ rest else n ∷ later

abbrev pub add_keys : List String → List String → List String
add_keys [] known = known
add_keys (k ∷ ks) known = add_keys ks (add_key k known)

module _ {D F : Type 0} ⦃d : Decimal D⦄ ⦃f : Float F⦄ where
  unfoldable pub new_sim_state : BacktestParams D F → SimState D F
  new_sim_state params =
      let initial =
        if less_than_or_equal params.initial_capital nought
        then d.of_int (pos 10_000)
        else params.initial_capital in
      record {
        cash = initial;
        initial = initial;
        last_equity = initial;
        peak_equity = initial;
        max_drawdown_pct = int 0;
        inferences = 0;
        cache_hits = 0;
        degraded_steps = 0;
        analysis_points = 0;
        unfilled_entries = 0;
        reasons = [];
        replay_from = 0;
        replay_to = 0;
        data_issues = [];
        curve = [];
      }

module _ {D F : Type 0} ⦃d : Decimal D⦄ where
  unfoldable pub equity : SimState D F → D
  equity s = if greater_than s.last_equity nought then s.last_equity else s.cash

  -- The loop of `availableMargin`.
  unfoldable pub free_of : D → List (OpenTrade D F) → D
  free_of available [] = available
  free_of available (position ∷ positions) =
      free_of
        (if is_zero position.original_qty
          then available
          else d.sub available
              (d.div (d.mul position.initial_margin position.remaining_qty) position.original_qty))
        positions

  unfoldable pub available_margin : SimState D F → List (OpenTrade D F) → D
  unfolding free_of
  available_margin s positions =
      let available = free_of s.cash positions in
      if less_than available nought then nought else available

  -- The loop of `markToMarket`.
  unfoldable pub marked_equity : (price taker_fee_pct : D) → D → List (OpenTrade D F) → D
  unfolding Direction.sign
  marked_equity price taker_fee_pct equity [] = equity
  marked_equity price taker_fee_pct equity (position ∷ positions) =
      marked_equity price taker_fee_pct
        (d.sub
          (d.add equity (
            d.mul (d.mul (d.sub price position.trade.entry_price) position.remaining_qty)
              (d.of_int (Direction.sign position.trade.direction))))
          (d.div (d.mul (d.mul price position.remaining_qty) taker_fee_pct) hundred))
        positions

module _ {D F : Type 0} ⦃d : Decimal D⦄ ⦃f : Float F⦄ ⦃c : Conversion D F⦄ where
  unfoldable pub record_equity : SimState D F → D → SimState D F
  record_equity s equity =
      let marked = record s { last_equity = equity } in
      let value = c.to_float (d.mul (d.div (d.sub s.peak_equity equity) s.peak_equity) hundred) in
      if greater_than equity s.peak_equity
      then record marked { peak_equity = equity }
      else if greater_than s.peak_equity nought && f.lt s.max_drawdown_pct value
      then record marked { max_drawdown_pct = value }
      else marked

  unfoldable pub mark_to_market :
      SimState D F → (mark : F) → List (OpenTrade D F) → (taker_fee_pct : D) → SimState D F
  unfolding record_equity marked_equity
  mark_to_market s mark positions taker_fee_pct =
      record_equity s (marked_equity (c.to_decimal mark) taker_fee_pct s.cash positions)

  unfoldable pub record_equity_point : SimState D F → Time → SimState D F
  record_equity_point s at = record s {
    curve = s.curve ++ (record { time = at; equity = c.to_float s.last_equity } ∷ []);
  }

module _ {D F : Type 0} where
  -- `recordReason`; the empty reason is not counted.
  unfoldable pub record_reason : SimState D F → String → SimState D F
  unfolding increment
  record_reason s reason =
      if str_eq reason "" then s else record s { reasons = increment reason s.reasons }

  unfoldable pub record_bar : SimState D F → Time → SimState D F
  record_bar s at = record s {
    replay_from = if (s.replay_from == 0) || ltb at s.replay_from then at else s.replay_from;
    replay_to = if ltb s.replay_to at then at else s.replay_to;
  }

  unfoldable pub record_quality : SimState D F → DataQuality → SimState D F
  unfolding add_key
  record_quality s quality = if is_fine quality.status then s else record s {
    degraded_steps = suc s.degraded_steps;
    data_issues = add_keys quality.missing_fields s.data_issues;
  }

module _ {F : Type 0} ⦃f : Float F⦄ where
  -- `s.curve[int(x)]`; `none` is the panic.
  abbrev pub index_at : List (EquityPoint F) → ℤ → Option (EquityPoint F)
  index_at curve (pos i) = get_elem? curve i
  index_at curve (negsuc i) = none

  -- The loop of `equityCurve`, for `rounds` indices from i on, and then the last point.
  unfoldable pub sample :
      List (EquityPoint F) → (step : F) → (rounds i : ℕ) → Option (List (EquityPoint F))
  sample curve step zero i = elim (get_last? curve) [ none ↦ none | some p ↦ some (p ∷ []) ]
  sample curve step (suc rounds) i =
      let rest = sample curve step rounds (suc i) in
      elim (index_at curve (f.to_int (f.mul (int i) step))) [
        | none ↦ none
        | some p ↦ elim rest [ none ↦ none | some ps ↦ some (p ∷ ps) ]
      ]

  unfoldable pub equity_curve :
      {D : Type 0} → SimState D F → (max : ℕ) → Option (List (EquityPoint F))
  unfolding sample
  equity_curve s max =
      let n = length s.curve in
      if leb max 2 || leb n max
      then some s.curve
      else sample s.curve (f.div (int (n - 1)) (int (max - 1))) (max - 1) 0
