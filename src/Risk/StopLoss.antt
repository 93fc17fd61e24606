-- ===== src/Risk/StopLoss.antt =====
-- backend/internal/risk/engine.go: what the stop distance means for the result of `Evaluate`.
use crypto_market_advisor.Base.{
  ◌/◌, ◌≡◌, sym, subst, ◌∙◌, ◌⊎◌, inl, inr, true, ◌||◌, if_elim, some, arith,
}
use crypto_market_advisor.Base.Int.{ℤ, pos, ◌≤ℤ◌}
use crypto_market_advisor.Numbers.Decimal.{Decimal}
use crypto_market_advisor.Numbers.Float.{Float, Conversion, int}
use crypto_market_advisor.Numbers.Order.{IsFloat, ◌⊑◌}
use crypto_market_advisor.Domain.RecommendationAction
use crypto_market_advisor.Risk.Input.{RiskConfig, Input, Note}
use crypto_market_advisor.Risk.Readings.{
  primary_atr_pct, stop_distance_pct, has_high_volatility, has_fresh_critical, reaches,
  news_leverage_cap,
}
use crypto_market_advisor.Risk.Leverage.{start, by_stop_distance, later_limits, limits}
use crypto_market_advisor.Risk.Sizing.{clamp}
use crypto_market_advisor.Risk.Lowers.{IsNonneg, later_limits-Lowers, stop-Lowers, start-int}
use crypto_market_advisor.Risk.Engine.{evaluate}
use crypto_market_advisor.Risk.Range.{allowed, entry-leverage}
use crypto_market_advisor.Domain.Timeframe.{minute}

pub clamp-cases :
    (low high x : ℤ) → low ≤ℤ high → (clamp low high x ≡ low) ⊎ (clamp low high x ≤ℤ x)
clamp-cases low high x h = ground arith

module _ {D F : Type 0} where
  -- The configuration makes sense: the range of the leverage is one, and no cap is negative.
  abbrev pub IsSane : RiskConfig D F → Type 0
  IsSane cfg =
      (pos 0 ≤ℤ cfg.min_leverage)
      × (cfg.min_leverage ≤ℤ cfg.max_leverage)
      × (pos 0 ≤ℤ cfg.critical_news_max_leverage)
      × (pos 0 ≤ℤ cfg.critical_news_high_vol_max_leverage)

module _ {D F : Type 0} ⦃f : Float F⦄ (laws : IsFloat F) (cfg : RiskConfig D F) (req : Input D F)
    (sane : IsSane cfg) where
  max_nonneg : pos 0 ≤ℤ cfg.max_leverage
  max_nonneg = let (a, b, c, e) = sane in omega (arith, a, b)

  news_leverage_cap-nonneg : pos 0 ≤ℤ (news_leverage_cap cfg req.snapshot).0
  unfolding news_leverage_cap
  news_leverage_cap-nonneg =
      if_elim (λ (p : ℤ × Note D F). pos 0 ≤ℤ p.0)
        (has_fresh_critical (pos (cfg.critical_news_max_age / minute)) req.snapshot.asset_news
          || has_fresh_critical (pos (cfg.critical_news_max_age / minute)) req.snapshot.global_news)
        (if_elim (λ (p : ℤ × Note D F). pos 0 ≤ℤ p.0)
          (reaches (primary_atr_pct req.snapshot) cfg.high_volatility_atr_pct
            || has_high_volatility req.snapshot.tags)
          sane.3 sane.2)
        max_nonneg

  pub start-IsNonneg : IsNonneg laws cfg req sane.0 (start cfg req)
  start-IsNonneg =
      let (m, e, which) = start-int laws cfg req sane.0 in
      subst (λ x. f.le (int 0) x ≡ true) (sym e)
        (laws.of_int_mono (pos 0) m (elim which [
          | inl same ↦ subst (λ x. pos 0 ≤ℤ x) (sym same) max_nonneg
          | inr same ↦ subst (λ x. pos 0 ≤ℤ x) (sym same) news_leverage_cap-nonneg
        ]))

  -- The constraints leave a leverage that is at most the quotient of the permitted loss and the
  -- distance, and whose whole part is at most itself.
  limits-bound :
      (dist : F)
      → f.lt (int 0) dist ≡ true
      → stop_distance_pct req ≡ some dist
      → f.of_int (allowed cfg req) ⊑ f.div (int 35) dist
  unfolding limits
  limits-bound dist away h =
      let (m, e, which) = start-int laws cfg req sane.0 in
      let ((pos_b, b-le), b-le_quot) =
        stop-Lowers laws cfg req sane.0 dist (start cfg req) away start-IsNonneg in
      let b = by_stop_distance cfg req (some dist) (start cfg req) in
      let (pos_l, l-le) = later_limits-Lowers laws cfg req sane.0 b pos_b in
      let l = (later_limits cfg req b).max_lev in
      let whole =
        laws.whole-le l m pos_l
          (laws.le_trans l b.max_lev (f.of_int m) l-le (subst (λ x. b.max_lev ⊑ x) e b-le)) in
      subst
        (λ stop.
          f.of_int (
            f.to_int (
              f.floor
                (later_limits cfg req (by_stop_distance cfg req stop (start cfg req))).max_lev))
          ⊑ f.div (int 35) dist)
        (sym h) (laws.le_trans _ l _ whole (laws.le_trans l b.max_lev _ l-le b-le_quot))

module _ {D F : Type 0} ⦃d : Decimal D⦄ ⦃f : Float F⦄ ⦃c : Conversion D F⦄ where
  -- For an entry whose furthest stop is a known positive distance away, under a configuration that makes sense:
  -- the allowed leverage is the configured minimum, or a stop-out at that leverage costs at most
  -- 35 percent of the margin (MaxLossOnMarginPct), as it is at most 35 / distance.
  pub evaluate-stop_loss :
      (laws : IsFloat F) (cfg : RiskConfig D F) (req : Input D F) (dist : F)
      → IsSane cfg
      → RecommendationAction.is_entry req.action ≡ true
      → stop_distance_pct req ≡ some dist
      → f.lt (int 0) dist ≡ true
      → let m = (evaluate cfg req).leverage.risk_maximum in
        (m ≡ cfg.min_leverage) ⊎ (f.of_int m ⊑ f.div (int 35) dist)
  evaluate-stop_loss laws cfg req dist sane entry stop away =
      let (at_most, _) = entry-leverage cfg req entry in
      elim (clamp-cases cfg.min_leverage cfg.max_leverage (allowed cfg req) sane.1) [
        | inl e ↦ inl (at_most ∙ e)
        | inr le ↦ inr (
            laws.le_trans _ _ _
              (laws.of_int_mono _ (allowed cfg req)
                (subst (λ x. x ≤ℤ allowed cfg req) (sym at_most) le))
              (limits-bound laws cfg req sane dist away stop))
      ]
