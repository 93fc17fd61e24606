-- ===== src/Risk/Readings.antt =====
-- backend/internal/risk/engine.go: what the engine reads off a snapshot.
use crypto_market_advisor.Base.{
  ◌/◌, Bool, true, false, not, ◌&&◌, ◌||◌, if◌then◌else◌, Option, none, some, List, [], ◌∷◌,
}
use crypto_market_advisor.Base.Int.{ℤ, pos, leb_ℤ}
use crypto_market_advisor.Numbers.Float.{Float, int}
use crypto_market_advisor.Domain.Timeframe.{tf5m, tf15m, tf1h, tf4h, tf1d, minute}
use crypto_market_advisor.Domain.Plan.{PriceTarget}
use crypto_market_advisor.Domain.Direction
use crypto_market_advisor.Domain.Direction.{Direction}
use crypto_market_advisor.Domain.RecommendationAction
use crypto_market_advisor.Domain.Kinds.{RegimeTag, high_volatility, LevelType, support, resistance}
use crypto_market_advisor.Risk.Input.{
  RiskConfig, Indicators, Level, NewsSnapshotItem, FeatureSnapshot, Input, Note, empty_note,
  critical_news, critical_news_high_volatility,
}

abbrev pub is_high_volatility : RegimeTag → Bool
is_high_volatility high_volatility = true
is_high_volatility _ = false

abbrev pub is_resistance : LevelType → Bool
is_resistance resistance = true
is_resistance support = false

-- A loop over the tags that looks for high volatility.
unfoldable pub has_high_volatility : List RegimeTag → Bool
has_high_volatility [] = false
has_high_volatility (t ∷ ts) = is_high_volatility t || has_high_volatility ts

-- The loops over the two groups of news.
unfoldable pub has_fresh_critical : (max_age_minutes : ℤ) → List NewsSnapshotItem → Bool
has_fresh_critical max_age [] = false
has_fresh_critical max_age (n ∷ ns) =
    (n.critical && leb_ℤ n.age_minutes max_age) || has_fresh_critical max_age ns

abbrev or_else {ℓ} : {A : Type ℓ} → Option A → Option A → Option A
or_else none o = o
or_else (some a) o = some a

module _ {F : Type 0} where
  abbrev atr_of : Option (Indicators F) → Option F
  atr_of none = none
  atr_of (some a) = a.atr_pct

  -- `primaryATRPct`
  unfoldable pub primary_atr_pct : FeatureSnapshot F → Option F
  primary_atr_pct s = or_else (atr_of (s.timeframes tf1h)) (
      or_else (atr_of (s.timeframes tf15m)) (
        or_else (atr_of (s.timeframes tf4h))
          (or_else (atr_of (s.timeframes tf5m)) (atr_of (s.timeframes tf1d)))))

  abbrev percentile_of : Option (Indicators F) → Option F
  percentile_of none = none
  percentile_of (some a) = or_else a.atr_percentile a.vol_percentile

  -- `volatilityPercentile`
  unfoldable pub volatility_percentile : FeatureSnapshot F → Option F
  volatility_percentile s =
      or_else (percentile_of (s.timeframes tf1h))
        (or_else (percentile_of (s.timeframes tf4h)) (percentile_of (s.timeframes tf15m)))

module _ {F : Type 0} ⦃f : Float F⦄ where
  -- The loop of `stopDistancePct`.
  unfoldable pub worst_stop : (reference worst : F) → List (PriceTarget F) → F
  worst_stop reference worst [] = worst
  worst_stop reference worst (sl ∷ sls) =
      let d = f.mul (f.div (f.abs (f.sub sl.price reference)) reference) (int 100) in
      worst_stop reference (if f.lt worst d then d else worst) sls

  -- The loop of `opposingLevelNearby`, over the levels.
  unfoldable pub nearest_level :
      Direction → (want : LevelType) → (reference nearest : F) → List (Level F) → F
  unfolding Direction.is_long Direction.is_short
  nearest_level direction want reference nearest [] = nearest
  nearest_level direction want reference nearest (l ∷ ls) =
      let same_type =
        if is_resistance want then is_resistance l.type else not (is_resistance l.type) in
      let skipped =
        not same_type
        || f.lt l.strength (f.lit 4 1)
        || (Direction.is_long direction && f.le l.price reference)
        || (Direction.is_short direction && f.le reference l.price) in
      let d = f.abs l.distance_pct in
      nearest_level direction want reference
        (if skipped then nearest else if f.lt d nearest then d else nearest) ls

  abbrev pub no_stops : List (PriceTarget F) → Bool
  no_stops [] = true
  no_stops (x ∷ xs) = false

  -- `a >= b` for a reading that may be missing.
  abbrev pub reaches : Option F → F → Bool
  reaches none limit = false
  reaches (some x) limit = f.le limit x

  module _ {D : Type 0} where
    -- `stopDistancePct`
    unfoldable pub stop_distance_pct : Input D F → Option F
    unfolding worst_stop
    stop_distance_pct req =
        if f.le req.reference_price (int 0) || no_stops req.stop_loss
        then none
        else let worst = worst_stop req.reference_price (int 0) req.stop_loss in
          if f.le worst (int 0) then none else some worst

    -- `opposingLevelNearby`; `none` is its `false`.
    unfoldable pub opposing_level_nearby : Input D F → Option F
    unfolding nearest_level RecommendationAction.direction Direction.is_short
    opposing_level_nearby req =
        let (direction, entry) = RecommendationAction.direction req.action in
        if not entry || f.le req.reference_price (int 0)
        then none
        else let want = if Direction.is_short direction then support else resistance in
          let nearest =
            nearest_level direction want req.reference_price f.infinity req.snapshot.key_levels in
          if f.eq nearest f.infinity || f.lt (int 1) nearest then none else some nearest

    -- `NewsLeverageCap`
    unfoldable pub news_leverage_cap : RiskConfig D F → FeatureSnapshot F → ℤ × Note D F
    unfolding has_fresh_critical has_high_volatility primary_atr_pct
    news_leverage_cap cfg s =
        let max_age = pos (cfg.critical_news_max_age / minute) in
        if has_fresh_critical max_age s.asset_news || has_fresh_critical max_age s.global_news
        then if reaches (primary_atr_pct s) cfg.high_volatility_atr_pct
            || has_high_volatility s.tags
          then (cfg.critical_news_high_vol_max_leverage, critical_news_high_volatility)
          else (cfg.critical_news_max_leverage, critical_news)
        else (cfg.max_leverage, empty_note)
