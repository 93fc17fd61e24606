-- ===== src/Risk/Lowers.antt =====
-- backend/internal/risk/engine.go: each constraint of `Evaluate` only lowers the leverage.
use crypto_market_advisor.Base.{
  ℕ, ◌≤◌, ◌<◌, ◌^◌, ◌≡◌, refl, ◌⊎◌, inl, inr, true, if_elim, Option, none, some, List, arith,
  Bool-cases,
}
use crypto_market_advisor.Base.Int.{ℤ, pos, ◌≤ℤ◌, ltb_ℤ}
use crypto_market_advisor.Numbers.Float.{Float, int}
use crypto_market_advisor.Numbers.Order.{IsFloat, ◌⊑◌}
use crypto_market_advisor.Domain.Kinds.{
  MarketRegime, strong_uptrend, weak_uptrend, strong_downtrend, weak_downtrend, range, breakout,
  compression, uncertain, RegimeTag,
}
use crypto_market_advisor.Domain.Recommendation.{quality_ok}
use crypto_market_advisor.Risk.Input.{RiskConfig, Input}
use crypto_market_advisor.Risk.Readings.{
  primary_atr_pct, volatility_percentile, opposing_level_nearby, has_high_volatility,
  news_leverage_cap,
}
use crypto_market_advisor.Risk.Leverage.{
  Draft, start, by_stop_distance, by_volatility, by_percentile, by_regime, by_tags, by_confidence,
  by_alignment, by_opposing_level, by_data_quality, later_limits,
}

module _ {D F : Type 0} ⦃f : Float F⦄ (laws : IsFloat F) (cfg : RiskConfig D F) (req : Input D F)
    (low : pos 0 ≤ℤ cfg.min_leverage) where
  abbrev pub Within : Draft D F → F → Type 0
  Within a x = (int 0 ⊑ x) × (x ⊑ a.max_lev)

  -- A draft that allows at most what another one allows, and not less than nothing.
  abbrev pub Lowers : Draft D F → Draft D F → Type 0
  Lowers a b = Within a b.max_lev

  abbrev pub IsNonneg : Draft D F → Type 0
  IsNonneg a = int 0 ⊑ a.max_lev

  floor_nonneg : int 0 ⊑ f.of_int cfg.min_leverage
  floor_nonneg = laws.of_int_mono (pos 0) cfg.min_leverage low

  same : (a : Draft D F) → IsNonneg a → Lowers a a
  same a h = (h, laws.le_refl a.max_lev h)

  capped : (a : Draft D F) (cap : F) → IsNonneg a → int 0 ⊑ cap → Within a (f.min a.max_lev cap)
  capped a cap h k = (laws.min_nonneg a.max_lev cap h k, laws.min-le a.max_lev cap h k)

  scaled :
      (a : Draft D F) (n k : ℕ)
      → IsNonneg a
      → 0 < n
      → n ≤ 10 ^ k
      → k ≤ 2
      → Within a (f.mul a.max_lev (f.lit n k))
  scaled a n k h p q r =
      (laws.scale_nonneg a.max_lev n k h p r, laws.scale-le a.max_lev n k h p q r)

  int_nonneg : (n : ℕ) → f.le (int 0) (int n) ≡ true
  int_nonneg n = laws.of_int_mono (pos 0) (pos n) (omega arith)

  volatility-Lowers :
      (atr_pct : Option F) (a : Draft D F) → IsNonneg a → Lowers a (by_volatility cfg req atr_pct a)
  unfolding by_volatility
  volatility-Lowers none a h = scaled a 6 1 h (omega arith) (omega arith) (omega arith)
  volatility-Lowers (some atr) a h =
      if_elim (Lowers a) (f.le cfg.extreme_volatility_atr_pct atr)
        (capped a _ h (laws.max_nonneg _ _ floor_nonneg (int_nonneg 8)))
        (if_elim (Lowers a) (f.le cfg.high_volatility_atr_pct atr)
          (capped a _ h (laws.max_nonneg _ _ floor_nonneg (int_nonneg 15))) (same a h))

  percentile-Lowers :
      (p : Option F) (a : Draft D F) → IsNonneg a → Lowers a (by_percentile cfg req p a)
  unfolding by_percentile
  percentile-Lowers none a h = same a h
  percentile-Lowers (some p) a h =
      if_elim (Lowers a) (f.le (int 85) p)
        (scaled a 8 1 h (omega arith) (omega arith) (omega arith)) (same a h)

  regime-Lowers : (r : MarketRegime) (a : Draft D F) → IsNonneg a → Lowers a (by_regime cfg req r a)
  unfolding by_regime
  regime-Lowers strong_uptrend a h = same a h
  regime-Lowers weak_uptrend a h = same a h
  regime-Lowers strong_downtrend a h = same a h
  regime-Lowers weak_downtrend a h = same a h
  regime-Lowers range a h = scaled a 8 1 h (omega arith) (omega arith) (omega arith)
  regime-Lowers breakout a h = scaled a 9 1 h (omega arith) (omega arith) (omega arith)
  regime-Lowers compression a h = same a h
  regime-Lowers uncertain a h = scaled a 6 1 h (omega arith) (omega arith) (omega arith)

  tags-Lowers :
      (tags : List RegimeTag) (a : Draft D F) → IsNonneg a → Lowers a (by_tags cfg req tags a)
  unfolding by_tags
  tags-Lowers tags a h =
      if_elim (Lowers a) (has_high_volatility tags)
        (scaled a 85 2 h (omega arith) (omega arith) (omega arith)) (same a h)

  confidence-Lowers : (a : Draft D F) → IsNonneg a → Lowers a (by_confidence cfg req a)
  unfolding by_confidence
  confidence-Lowers a h =
      if_elim (Lowers a) (ltb_ℤ req.confidence cfg.min_confidence) (capped a _ h floor_nonneg) (
        if_elim (Lowers a) (ltb_ℤ req.confidence (pos 70)) (capped a _ h (int_nonneg 20))
          (same a h))

  alignment-Lowers : (a : Draft D F) → IsNonneg a → Lowers a (by_alignment cfg req a)
  unfolding by_alignment
  alignment-Lowers a h =
      if_elim (Lowers a) (f.lt (f.abs req.snapshot.alignment_score) (f.lit 2 1))
        (scaled a 8 1 h (omega arith) (omega arith) (omega arith)) (same a h)

  opposing-Lowers :
      (o : Option F) (a : Draft D F) → IsNonneg a → Lowers a (by_opposing_level cfg req o a)
  unfolding by_opposing_level
  opposing-Lowers none a h = same a h
  opposing-Lowers (some x) a h = scaled a 85 2 h (omega arith) (omega arith) (omega arith)

  quality-Lowers : (a : Draft D F) → IsNonneg a → Lowers a (by_data_quality cfg req a)
  unfolding by_data_quality
  quality-Lowers a h =
      if_elim (Lowers a) (quality_ok req.snapshot.data_quality) (same a h)
        (scaled a 7 1 h (omega arith) (omega arith) (omega arith))

  -- One constraint after another.
  then_lower :
      (step : Draft D F → Draft D F)
      → ((a : Draft D F) → IsNonneg a → Lowers a (step a))
      → (a b : Draft D F) → Lowers a b
      → Lowers a (step b)
  then_lower step ok a b (h, k) =
      let (h', k') = ok b h in (h', laws.le_trans (step b).max_lev b.max_lev a.max_lev k' k)

  pub later_limits-Lowers : (a : Draft D F) → IsNonneg a → Lowers a (later_limits cfg req a)
  unfolding later_limits
  later_limits-Lowers a h = then_lower (by_data_quality cfg req) quality-Lowers a _ (
      then_lower (by_opposing_level cfg req (opposing_level_nearby req)) (opposing-Lowers _) a _ (
        then_lower (by_alignment cfg req) alignment-Lowers a _ (
          then_lower (by_confidence cfg req) confidence-Lowers a _ (
            then_lower (by_tags cfg req req.snapshot.tags) (tags-Lowers req.snapshot.tags) a _ (
              then_lower (by_regime cfg req req.snapshot.regime) (regime-Lowers _) a _ (
                then_lower (by_percentile cfg req (volatility_percentile req.snapshot))
                  (percentile-Lowers _) a _
                  (volatility-Lowers (primary_atr_pct req.snapshot) a h)))))))

  -- The constraint of the stop distance, where the stop is a known distance away.
  pub stop-Lowers :
      (dist : F) (a : Draft D F)
      → f.lt (int 0) dist ≡ true
      → IsNonneg a
      → Lowers a (by_stop_distance cfg req (some dist) a)
        × ((by_stop_distance cfg req (some dist) a).max_lev ⊑ f.div (int 35) dist)
  unfolding by_stop_distance
  stop-Lowers dist a away h =
      let below = laws.div_nonneg dist 35 (omega arith) away in
      elim (Bool-cases (f.lt (f.div (int 35) dist) a.max_lev)) [
        | inl e ↦
            rw (away, e)
              (
                (below, laws.le_of_lt (f.div (int 35) dist) a.max_lev e),
                laws.le_refl (f.div (int 35) dist) below,
              )
        | inr e ↦
            rw (away, e) (same a h, laws.le_of_not_lt (f.div (int 35) dist) a.max_lev below h e)
      ]

  -- The constraint of the stop distance, whatever is known of the stop.
  pub by_stop_distance-Lowers :
      (stop : Option F) (a : Draft D F) → IsNonneg a → Lowers a (by_stop_distance cfg req stop a)
  unfolding by_stop_distance
  by_stop_distance-Lowers none a h =
      capped a _ h (laws.times_nonneg (f.of_int cfg.min_leverage) 2 floor_nonneg (omega arith))
  by_stop_distance-Lowers (some dist) a h = elim (Bool-cases (f.lt (int 0) dist)) [
    | inl e ↦ (stop-Lowers dist a e h).0
    | inr e ↦ rw e (same a h)
  ]

  -- The start is an integer: the configured maximum, or the cap of the news.
  pub start-int :
      (m : ℤ) × ((start cfg req).max_lev ≡ f.of_int m)
      × ((m ≡ cfg.max_leverage) ⊎ (m ≡ (news_leverage_cap cfg req.snapshot).0))
  unfolding start
  start-int =
      elim (Bool-cases
        (ltb_ℤ (news_leverage_cap cfg req.snapshot).0 (f.to_int (f.of_int cfg.max_leverage)))) [
          | inl e ↦ ((news_leverage_cap cfg req.snapshot).0, rw e refl, inr refl)
          | inr e ↦ (cfg.max_leverage, rw e refl, inl refl)
        ]
