-- ===== src/Risk/Leverage.antt =====
-- backend/internal/risk/engine.go: the constraints of `Evaluate`, one definition for each numbered part, over
-- the leverage that is still allowed and the notes so far.
use crypto_market_advisor.Base.{ℕ, ◌&&◌, if◌then◌else◌, Option, none, some, List, [], ◌∷◌, ◌++◌}
use crypto_market_advisor.Base.Int.{pos, ltb_ℤ}
use crypto_market_advisor.Numbers.Float.{Float, int}
use crypto_market_advisor.Domain.Kinds.{MarketRegime, uncertain, range, breakout, RegimeTag}
use crypto_market_advisor.Domain.Recommendation.{quality_ok}
use crypto_market_advisor.Risk.Input
use crypto_market_advisor.Risk.Input.{RiskConfig, Input, Note}
use crypto_market_advisor.Risk.Readings.{
  has_high_volatility, primary_atr_pct, volatility_percentile, stop_distance_pct,
  opposing_level_nearby, news_leverage_cap,
}

-- The local `maxLev` and the notes.
pub record Draft (D F : Type 0) : Type 0 where
  pub max_lev : F
  pub notes : List (Note D F)

module _ {D F : Type 0} where
  abbrev pub limit : Draft D F → F → Note D F → Draft D F
  limit a cap n = record { max_lev = cap; notes = a.notes ++ (n ∷ []) }

module _ {D F : Type 0} ⦃f : Float F⦄ (cfg : RiskConfig D F) (req : Input D F) where
  abbrev floor_leverage : F
  floor_leverage = f.of_int cfg.min_leverage

  abbrev pub scale : Draft D F → ℕ → ℕ → Note D F → Draft D F
  scale a n k note = limit a (f.mul a.max_lev (f.lit n k)) note

  unfoldable pub start : Draft D F
  unfolding news_leverage_cap
  start =
      let max_lev = f.of_int cfg.max_leverage in
      let (cap, note) = news_leverage_cap cfg req.snapshot in
      if ltb_ℤ cap (f.to_int max_lev)
      then record { max_lev = f.of_int cap; notes = note ∷ [] }
      else record { max_lev = max_lev; notes = [] }

  -- 1. Stop distance
  unfoldable pub by_stop_distance : (stop : Option F) → Draft D F → Draft D F
  by_stop_distance none a =
      limit a (f.min a.max_lev (f.mul floor_leverage (int 2))) Input.no_usable_stop
  by_stop_distance (some d) a =
      let by_stop = f.div (int 35) d in
      if f.lt (int 0) d && f.lt by_stop a.max_lev
      then limit a by_stop (Input.stop_caps d by_stop)
      else a

  abbrev cap_at_least : ℕ → Draft D F → (F → Note D F) → Draft D F
  cap_at_least n a note =
      let cap = f.max floor_leverage (int n) in limit a (f.min a.max_lev cap) (note cap)

  -- 2. Volatility
  unfoldable pub by_volatility : (atr_pct : Option F) → Draft D F → Draft D F
  by_volatility none a = scale a 6 1 Input.atr_unavailable
  by_volatility (some atr) a =
      if f.le cfg.extreme_volatility_atr_pct atr
      then cap_at_least 8 a (Input.extreme_volatility atr)
      else if f.le cfg.high_volatility_atr_pct atr
      then cap_at_least 15 a (Input.elevated_volatility atr)
      else a

  unfoldable pub by_percentile : (percentile : Option F) → Draft D F → Draft D F
  by_percentile none a = a
  by_percentile (some p) a = if f.le (int 85) p then scale a 8 1 (Input.high_percentile p) else a

  -- 3. Regime
  unfoldable pub by_regime : MarketRegime → Draft D F → Draft D F
  by_regime uncertain a = scale a 6 1 Input.uncertain_regime
  by_regime range a = scale a 8 1 Input.range_regime
  by_regime breakout a = scale a 9 1 Input.breakout_regime
  by_regime _ a = a

  unfoldable pub by_tags : List RegimeTag → Draft D F → Draft D F
  unfolding has_high_volatility
  by_tags tags a = if has_high_volatility tags then scale a 85 2 Input.high_volatility_tag else a

  -- 4. Confidence
  unfoldable pub by_confidence : Draft D F → Draft D F
  by_confidence a =
      if ltb_ℤ req.confidence cfg.min_confidence
      then limit a (f.min a.max_lev floor_leverage)
          (Input.low_confidence req.confidence cfg.min_confidence)
      else if ltb_ℤ req.confidence (pos 70)
      then limit a (f.min a.max_lev (int 20)) Input.moderate_confidence
      else a

  -- 5. Multi-timeframe agreement
  unfoldable pub by_alignment : Draft D F → Draft D F
  by_alignment a =
      let score = req.snapshot.alignment_score in
      if f.lt (f.abs score) (f.lit 2 1) then scale a 8 1 (Input.disagreement score) else a

  -- 6. An opposing level
  unfoldable pub by_opposing_level : (opposing : Option F) → Draft D F → Draft D F
  by_opposing_level none a = a
  by_opposing_level (some distance) a = scale a 85 2 (Input.opposing_level distance)

  -- 7. Data quality
  unfoldable pub by_data_quality : Draft D F → Draft D F
  by_data_quality a =
      if quality_ok req.snapshot.data_quality
      then a
      else scale a 7 1 (Input.poor_data req.snapshot.data_quality)

  -- The constraints that follow the stop distance.
  unfoldable pub later_limits : Draft D F → Draft D F
  unfolding by_volatility by_percentile by_regime by_tags by_confidence by_alignment
      by_opposing_level by_data_quality primary_atr_pct volatility_percentile opposing_level_nearby
  later_limits a = by_data_quality (
      by_opposing_level (opposing_level_nearby req) (
        by_alignment (
          by_confidence (
            by_tags req.snapshot.tags (
              by_regime req.snapshot.regime (
                by_percentile (volatility_percentile req.snapshot)
                  (by_volatility (primary_atr_pct req.snapshot) a)))))))

  unfoldable pub limits : Draft D F
  unfolding start by_stop_distance later_limits stop_distance_pct
  limits = later_limits (by_stop_distance (stop_distance_pct req) start)
