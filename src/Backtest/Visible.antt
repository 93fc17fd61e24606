-- ===== src/Backtest/Visible.antt =====
-- backend/internal/backtesting/engine.go: which candles a decision may see. `sort.Search` is written out
-- as the binary search that it is.
use crypto_market_advisor.Base.{
  ℕ, zero, suc, ◌+◌, ◌-◌, ◌/◌, Bool, true, false, not, ◌&&◌, if◌then◌else◌, Option, none, some,
  List, [], ◌∷◌, ltb, leb, length, get_elem?,
}
use crypto_market_advisor.Base.Int.{ℤ, pos, pos_part, leb_ℤ}
use crypto_market_advisor.Numbers.Float.{Float, int}
use crypto_market_advisor.Domain.Timeframe
use crypto_market_advisor.Domain.Timeframe.{Time, Timeframe}
use crypto_market_advisor.Domain.Market.{Candle}

-- The loop of `sort.Search`, for a number of rounds that is enough.
unfoldable pub search_from : (rounds : ℕ) → (ℕ → Bool) → (i j : ℕ) → ℕ
search_from zero test i j = i
search_from (suc rounds) test i j =
    let h = (i + j) / 2 in
    let right = search_from rounds test (suc h) j in
    let left = search_from rounds test i h in
    if not (ltb i j) then i else if not (test h) then right else left

unfoldable pub search : (n : ℕ) → (ℕ → Bool) → ℕ
unfolding search_from
search n test = search_from (suc n) test 0 n

module _ {ℓ} {A : Type ℓ} where
  -- xs[:n] and xs[n:]
  abbrev pub take : ℕ → List A → List A
  take zero xs = []
  take (suc n) [] = []
  take (suc n) (x ∷ xs) = x ∷ take n xs

  abbrev pub drop : ℕ → List A → List A
  drop zero xs = xs
  drop (suc n) [] = []
  drop (suc n) (x ∷ xs) = drop n xs

-- The number of candles that a decision sees at most.
unfoldable pub window : (limit : ℤ) → ℕ
window limit = if leb_ℤ limit (pos 0) then 500 else pos_part limit

module _ {F : Type 0} where
  -- candles[i].CloseTime.After(at); the search asks for no other index than one of the list.
  abbrev pub closes_after : Time → Option (Candle F) → Bool
  closes_after at none = true
  closes_after at (some c) = ltb at c.close_time

  unfoldable pub closed_count : List (Candle F) → Time → ℕ
  unfolding search
  closed_count candles at = search (length candles) (λ i. closes_after at (get_elem? candles i))

  -- The candles of one timeframe in `visibleSeriesAt`.
  unfoldable pub visible_at : List (Candle F) → Time → (limit : ℤ) → List (Candle F)
  unfolding closed_count window
  visible_at candles at limit =
      let end = closed_count candles at in drop (end - window limit) (take end candles)

  -- The benchmark that `marketContextAt` reads.
  unfoldable pub benchmark_at : List (Candle F) → Time → List (Candle F)
  unfolding closed_count
  benchmark_at benchmark at = take (closed_count benchmark at) benchmark

  -- `closedThrough`
  unfoldable pub closed_through : List (Candle F) → Time → List (Candle F)
  closed_through [] to = []
  closed_through (c ∷ cs) to =
      let rest = closed_through cs to in
      if c.closed && not (ltb to c.close_time) then c ∷ rest else rest

  -- `hasCandleGaps`
  unfoldable pub has_candle_gaps : List (Candle F) → Timeframe → Bool
  unfolding Timeframe.duration
  has_candle_gaps [] tf = false
  has_candle_gaps (c ∷ []) tf = false
  has_candle_gaps (c ∷ next ∷ cs) tf =
      let rest = has_candle_gaps (next ∷ cs) tf in
      if ltb (c.open_time + Timeframe.duration tf) next.open_time then true else rest

  -- `tail`
  unfoldable pub tail : List (Candle F) → (limit : ℕ) → List (Candle F)
  tail candles limit =
      if leb (length candles) limit then candles else drop (length candles - limit) candles

module _ {F : Type 0} ⦃f : Float F⦄ where
  -- `missingCandleVolume`
  unfoldable pub missing_candle_volume : List (Candle F) → Bool
  missing_candle_volume [] = false
  missing_candle_volume (c ∷ cs) = no_volume (c ∷ cs)
    where
      no_volume : List (Candle F) → Bool
      no_volume [] = true
      no_volume (x ∷ xs) = if f.lt (int 0) x.volume then false else no_volume xs
