-- ===== src/Risk/Range.antt =====
-- backend/internal/risk/engine.go: the range of the leverage that `Evaluate` returns.
use crypto_market_advisor.Base.{
  ◌≡◌, refl, sym, subst, ◌⊎◌, inl, inr, true, false, arith, Bool-cases,
}
use crypto_market_advisor.Base.Int.{ℤ, pos, ◌≤ℤ◌}
use crypto_market_advisor.Numbers.Decimal.{Decimal, nought}
use crypto_market_advisor.Numbers.Float.{Float, Conversion}
use crypto_market_advisor.Domain.RecommendationAction
use crypto_market_advisor.Risk.Input.{RiskConfig, Input}
use crypto_market_advisor.Risk.Leverage.{limits}
use crypto_market_advisor.Risk.Sizing.{clamp, recommend}
use crypto_market_advisor.Risk.Engine.{evaluate}

clamp-range :
    (low high x : ℤ) → low ≤ℤ high → (low ≤ℤ clamp low high x) × (clamp low high x ≤ℤ high)
clamp-range low high x h = ground arith

recommend-range :
    (low risk_max suggested : ℤ)
    → low ≤ℤ risk_max
    → (low ≤ℤ recommend low risk_max suggested) × (recommend low risk_max suggested ≤ℤ risk_max)
recommend-range low risk_max suggested h = ground arith

module _ {D F : Type 0} ⦃f : Float F⦄ where
  -- The whole part of the leverage that the constraints leave.
  abbrev pub allowed : RiskConfig D F → Input D F → ℤ
  allowed cfg req = f.to_int (f.floor (limits cfg req).max_lev)

module _ {D F : Type 0} ⦃d : Decimal D⦄ ⦃f : Float F⦄ ⦃c : Conversion D F⦄ where
  pub entry-leverage :
      (cfg : RiskConfig D F) (req : Input D F)
      → RecommendationAction.is_entry req.action ≡ true
      → let m = clamp cfg.min_leverage cfg.max_leverage (allowed cfg req) in
        let l = (evaluate cfg req).leverage in
        (l.risk_maximum ≡ m) × (l.recommended ≡ recommend cfg.min_leverage m req.llm_leverage)
  unfolding evaluate
  entry-leverage cfg req e = rw e (refl, refl)

  -- Whatever the arithmetic of the floats gives, NaN included, and whatever the model suggests: for an
  -- entry, the allowed maximum is within the configured range, if that is one, and the recommended leverage
  -- is between the configured minimum and the allowed maximum; for any other action there is no
  -- leverage and no allocation.
  pub evaluate-range :
      (cfg : RiskConfig D F) (req : Input D F)
      → cfg.min_leverage ≤ℤ cfg.max_leverage
      → let a = evaluate cfg req in
        ((RecommendationAction.is_entry req.action ≡ true)
          × (cfg.min_leverage ≤ℤ a.leverage.risk_maximum)
          × (a.leverage.risk_maximum ≤ℤ cfg.max_leverage)
          × (cfg.min_leverage ≤ℤ a.leverage.recommended)
          × (a.leverage.recommended ≤ℤ a.leverage.risk_maximum))
        ⊎ ((RecommendationAction.is_entry req.action ≡ false)
            × (a.leverage.risk_maximum ≡ pos 0)
            × (a.leverage.recommended ≡ pos 0)
            × (a.allocation_pct ≡ nought))
  unfolding evaluate
  evaluate-range cfg req h = elim (Bool-cases (RecommendationAction.is_entry req.action)) [
    | inl e ↦
        let (at_most, at_least) = entry-leverage cfg req e in
        let m = clamp cfg.min_leverage cfg.max_leverage (allowed cfg req) in
        let (low, high) = clamp-range cfg.min_leverage cfg.max_leverage (allowed cfg req) h in
        let (low', high') = recommend-range cfg.min_leverage m req.llm_leverage low in
        inl (
          e,
          subst (λ x. cfg.min_leverage ≤ℤ x) (sym at_most) low,
          subst (λ x. x ≤ℤ cfg.max_leverage) (sym at_most) high,
          subst (λ x. cfg.min_leverage ≤ℤ x) (sym at_least) low',
          subst (λ x. x ≤ℤ (evaluate cfg req).leverage.risk_maximum) (sym at_least)
              (subst (λ x. recommend cfg.min_leverage m req.llm_leverage ≤ℤ x) (sym at_most) high'),
        )
    | inr e ↦ rw e (inr (refl, refl, refl, refl))
  ]
