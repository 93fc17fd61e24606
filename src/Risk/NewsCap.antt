-- ===== src/Risk/NewsCap.antt =====
-- backend/internal/risk/engine.go: what a fresh critical news item means for the result of `Evaluate`.
use crypto_market_advisor.Base.{
  ◌/◌, ◌≡◌, refl, sym, subst, ◌∙◌, ◌⊎◌, inl, inr, Bool, true, false, ◌||◌, if◌then◌else◌, arith,
  Bool-cases,
}
use crypto_market_advisor.Base.Int.{ℤ, pos, ◌≤ℤ◌, ltb_ℤ}
use crypto_market_advisor.Numbers.Decimal.{Decimal}
use crypto_market_advisor.Numbers.Float.{Float, Conversion, int}
use crypto_market_advisor.Numbers.Order.{IsFloat, ◌⊑◌}
use crypto_market_advisor.Domain.Timeframe.{minute}
use crypto_market_advisor.Domain.RecommendationAction
use crypto_market_advisor.Risk.Input.{RiskConfig, Input, FeatureSnapshot}
use crypto_market_advisor.Risk.Readings.{
  primary_atr_pct, stop_distance_pct, has_high_volatility, has_fresh_critical, reaches,
  news_leverage_cap,
}
use crypto_market_advisor.Risk.Leverage.{start, by_stop_distance, later_limits, limits}
use crypto_market_advisor.Risk.Lowers.{later_limits-Lowers, by_stop_distance-Lowers, start-int}
use crypto_market_advisor.Risk.Engine.{evaluate}
use crypto_market_advisor.Risk.Range.{allowed, entry-leverage}
use crypto_market_advisor.Risk.StopLoss.{IsSane, clamp-cases, start-IsNonneg}

first_of_pair :
    {A : Type 0} (alarmed volatile : Bool) (x y z : ℤ × A)
    → alarmed ≡ true
    → (if alarmed then (if volatile then x else y) else z).0 ≡ (if volatile then x.0 else y.0)
first_of_pair true true x y z h = refl
first_of_pair true false x y z h = refl
first_of_pair false v x y z h = cc

module _ {D F : Type 0} ⦃f : Float F⦄ where
  -- A fresh critical news item among those of the asset or of the market.
  abbrev pub is_alarmed : RiskConfig D F → FeatureSnapshot F → Bool
  is_alarmed cfg s =
      has_fresh_critical (pos (cfg.critical_news_max_age / minute)) s.asset_news
      || has_fresh_critical (pos (cfg.critical_news_max_age / minute)) s.global_news

  -- A high range of the prices, or the tag of high volatility.
  abbrev pub is_volatile : RiskConfig D F → FeatureSnapshot F → Bool
  is_volatile cfg s =
      reaches (primary_atr_pct s) cfg.high_volatility_atr_pct || has_high_volatility s.tags

  abbrev pub cap_of : RiskConfig D F → FeatureSnapshot F → ℤ
  cap_of cfg s =
      if is_volatile cfg s
      then cfg.critical_news_high_vol_max_leverage
      else cfg.critical_news_max_leverage

  alarmed-cap :
      (cfg : RiskConfig D F) (s : FeatureSnapshot F)
      → is_alarmed cfg s ≡ true
      → (news_leverage_cap cfg s).0 ≡ cap_of cfg s
  unfolding news_leverage_cap
  alarmed-cap cfg s h = first_of_pair (is_alarmed cfg s) (is_volatile cfg s) _ _ _ h

module _ {D F : Type 0} ⦃f : Float F⦄ (laws : IsFloat F) (cfg : RiskConfig D F) (req : Input D F)
    (sane : IsSane cfg) (exact : f.to_int (f.of_int cfg.max_leverage) ≡ cfg.max_leverage) where
  abbrev cap : ℤ
  cap = (news_leverage_cap cfg req.snapshot).0

  start-cases :
      ((start cfg req).max_lev ≡ f.of_int cap)
      ⊎ ((ltb_ℤ cap (f.to_int (f.of_int cfg.max_leverage)) ≡ false)
          × ((start cfg req).max_lev ≡ f.of_int cfg.max_leverage))
  unfolding start
  start-cases = elim (Bool-cases (ltb_ℤ cap (f.to_int (f.of_int cfg.max_leverage)))) [
    | inl e ↦ inl (rw e refl)
    | inr e ↦ inr (e, rw e refl)
  ]

  not_lt→le : (a b x : ℤ) → x ≡ b → ltb_ℤ a x ≡ false → b ≤ℤ a
  not_lt→le a b x e h = ground (arith, e, h)

  start-le_cap : (start cfg req).max_lev ⊑ f.of_int (news_leverage_cap cfg req.snapshot).0
  start-le_cap = elim start-cases [
    | inl e ↦
        subst (λ x. x ⊑ f.of_int cap) (sym e)
          (laws.le_refl (f.of_int cap)
            (subst (λ x. f.le (int 0) x ≡ true) e (start-IsNonneg laws cfg req sane)))
    | inr (h, e) ↦
        subst (λ x. x ⊑ f.of_int cap) (sym e)
          (laws.of_int_mono cfg.max_leverage cap
            (not_lt→le cap cfg.max_leverage (f.to_int (f.of_int cfg.max_leverage)) exact h))
  ]

  limits-le_cap : f.of_int (allowed cfg req) ⊑ f.of_int (news_leverage_cap cfg req.snapshot).0
  unfolding limits
  limits-le_cap =
      let (m, e, which) = start-int laws cfg req sane.0 in
      let a = start cfg req in
      let b = by_stop_distance cfg req (stop_distance_pct req) a in
      let (pos_b, b-le) =
        by_stop_distance-Lowers laws cfg req sane.0 (stop_distance_pct req) a
          (start-IsNonneg laws cfg req sane) in
      let (pos_l, l-le) = later_limits-Lowers laws cfg req sane.0 b pos_b in
      let l = (later_limits cfg req b).max_lev in
      let l-le_start = laws.le_trans l b.max_lev a.max_lev l-le b-le in
      laws.le_trans _ l _ (laws.whole-le l m pos_l (subst (λ x. l ⊑ x) e l-le_start))
        (laws.le_trans l a.max_lev _ l-le_start start-le_cap)

module _ {D F : Type 0} ⦃d : Decimal D⦄ ⦃f : Float F⦄ ⦃c : Conversion D F⦄ where
  -- For an entry with a fresh critical news item, under a configuration that makes sense and whose
  -- maximum float64 represents: the allowed leverage is the configured minimum or at most the cap of
  -- critical news, that for high volatility if the volatility is high. The direction plays no part.
  pub evaluate-news_cap :
      (laws : IsFloat F) (cfg : RiskConfig D F) (req : Input D F)
      → IsSane cfg
      → f.to_int (f.of_int cfg.max_leverage) ≡ cfg.max_leverage
      → RecommendationAction.is_entry req.action ≡ true
      → is_alarmed cfg req.snapshot ≡ true
      → let m = (evaluate cfg req).leverage.risk_maximum in
        (m ≡ cfg.min_leverage) ⊎ (f.of_int m ⊑ f.of_int (cap_of cfg req.snapshot))
  evaluate-news_cap laws cfg req sane exact entry alarmed =
      let (at_most, _) = entry-leverage cfg req entry in
      elim (clamp-cases cfg.min_leverage cfg.max_leverage (allowed cfg req) sane.1) [
        | inl e ↦ inl (at_most ∙ e)
        | inr le ↦ inr (
            laws.le_trans _ _ _
              (laws.of_int_mono _ (allowed cfg req)
                (subst (λ x. x ≤ℤ allowed cfg req) (sym at_most) le))
              (subst (λ x. f.of_int (allowed cfg req) ⊑ f.of_int x)
                (alarmed-cap cfg req.snapshot alarmed) (limits-le_cap laws cfg req sane exact)))
      ]
