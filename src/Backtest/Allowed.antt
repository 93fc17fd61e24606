-- ===== src/Backtest/Allowed.antt =====
-- backend/internal/backtesting/engine.go with backend/internal/risk/engine.go: what a signal asks for is
-- within the policy.
use crypto_market_advisor.Base.{
  Bool, true, false, ◌&&◌, Option, none, some, ◌≡◌, inl, inr, Bool-cases, arith,
}
use crypto_market_advisor.Base.Int.{ℤ, ltb_ℤ, ◌≤ℤ◌}
use crypto_market_advisor.Numbers.Decimal.{Decimal}
use crypto_market_advisor.Numbers.Float.{Float, Conversion, int}
use crypto_market_advisor.Domain.Direction.{Direction}
use crypto_market_advisor.Domain.Market.{Candle}
use crypto_market_advisor.Domain.RecommendationAction
use crypto_market_advisor.Domain.RecommendationAction.{open_long, open_short}
use crypto_market_advisor.Risk.Input.{RiskConfig, FeatureSnapshot, Input}
use crypto_market_advisor.Risk.Engine.{evaluate}
use crypto_market_advisor.Risk.Range.{evaluate-range}
use crypto_market_advisor.Backtest.Params.{BacktestParams, SignalResult}
use crypto_market_advisor.Backtest.Entries.{RiskRequest, risk_input, risk_plan, requires_atr}
use crypto_market_advisor.Backtest.Signals.{
  PolicyDecision, Validated, atr_or_zero, sized, plan_request, plan_levels, plan_signal,
  answer_request, answer_levels, technical_signal, answer_signal, judge,
}

module _ {D F : Type 0} ⦃d : Decimal D⦄ ⦃f : Float F⦄ ⦃c : Conversion D F⦄ (cfg : RiskConfig D F)
    (params : BacktestParams D F) (policy : cfg.min_leverage ≤ℤ cfg.max_leverage) where
  evaluate-leverage :
      (req : Input D F)
      → RecommendationAction.is_entry req.action ≡ true
      → let x = (evaluate cfg req).leverage.recommended in
        (cfg.min_leverage ≤ℤ x) × (x ≤ℤ cfg.max_leverage)
  evaluate-leverage req e = elim (evaluate-range cfg req policy) [
    | inl (_, low, high, at_least, at_most) ↦ (at_least, omega (arith, at_most, high))
    | inr (n, _, _, _) ↦ ground (arith, e, n)
  ]

  risk_input-is_entry :
      (req : RiskRequest D F) (snapshot : FeatureSnapshot F)
      → RecommendationAction.is_entry (risk_input cfg req snapshot params).action ≡ true
  unfolding risk_input RecommendationAction.is_entry
  risk_input-is_entry req snapshot = ground arith

  risk_plan-leverage :
      (req : RiskRequest D F) (snapshot : FeatureSnapshot F)
      → let x = (risk_plan cfg req snapshot params).0 in
        (cfg.min_leverage ≤ℤ x) × (x ≤ℤ cfg.max_leverage)
  unfolding risk_plan
  risk_plan-leverage req snapshot =
      evaluate-leverage (risk_input cfg req snapshot params) (risk_input-is_entry req snapshot)

  abbrev pub InRange : ℤ → Type 0
  InRange x = (cfg.min_leverage ≤ℤ x) × (x ≤ℤ cfg.max_leverage)

  sized-leverage :
      (req : RiskRequest D F) (snapshot : FeatureSnapshot F) (s : SignalResult D F)
      → InRange (sized cfg params req snapshot s).leverage
  unfolding sized
  sized-leverage req snapshot s = risk_plan-leverage req snapshot

  plan_signal-leverage :
      (direction : Direction) (confidence : ℤ) (atr entry : F) (both : Bool)
      (snapshot : FeatureSnapshot F)
      → InRange (plan_signal cfg params direction confidence atr entry both snapshot).leverage
  unfolding plan_signal
  plan_signal-leverage direction confidence atr entry both snapshot =
      sized-leverage (plan_request cfg params direction confidence atr entry) snapshot
        (plan_levels cfg params direction confidence atr entry both)

  answer_signal-leverage :
      (v : Validated D F) (atr : F) (snapshot : FeatureSnapshot F) (last : Candle F)
      → InRange (answer_signal cfg params v atr snapshot last).leverage
  unfolding answer_signal
  answer_signal-leverage v atr snapshot last =
      sized-leverage (answer_request cfg params v atr last) snapshot
        (answer_levels cfg params v atr last)

  -- What holds of a signal, if there is one.
  abbrev pub IsAllowed : Option (SignalResult D F) → Type 0
  IsAllowed none = Unit
  IsAllowed (some s) = InRange s.leverage × (params.min_confidence ≤ℤ s.confidence)

  pub technical-IsAllowed :
      (decision : PolicyDecision) (atr : Option F) (snapshot : FeatureSnapshot F) (last : Candle F)
      → IsAllowed (technical_signal cfg params decision atr snapshot last).0
  unfolding technical_signal
  technical-IsAllowed decision atr snapshot last = elim (Bool-cases decision.is_entry) [
    | inr n ↦ rw n tt
    | inl e ↦ elim (Bool-cases (ltb_ℤ decision.confidence params.min_confidence)) [
      | inl low ↦ rw (e, low) tt
      | inr high ↦ elim (Bool-cases (f.le (atr_or_zero cfg params atr) (int 0))) [
        | inl z ↦ rw (e, high, z) tt
        | inr p ↦
            rw (e, high, p)
              (
                plan_signal-leverage decision.direction decision.confidence
                    (atr_or_zero cfg params atr) last.close false snapshot,
                ground (arith, high),
              )
      ]
    ]
  ]

  pub judge-IsAllowed :
      (answer : Option (Validated D F)) (atr : F) (snapshot : FeatureSnapshot F) (last : Candle F)
      → IsAllowed (judge cfg params answer atr snapshot last).0
  unfolding judge
  judge-IsAllowed none atr snapshot last = tt
  judge-IsAllowed (some v) atr snapshot last =
      elim (Bool-cases (RecommendationAction.is_entry v.action)) [
        | inr n ↦ rw n tt
        | inl e ↦ elim (Bool-cases (ltb_ℤ v.confidence params.min_confidence)) [
          | inl low ↦ rw (e, low) tt
          | inr high ↦ elim (Bool-cases (f.le atr (int 0) && requires_atr params)) [
            | inl z ↦ rw (e, high, z) tt
            | inr p ↦
                rw (e, high, p) (answer_signal-leverage v atr snapshot last, ground (arith, high))
          ]
        ]
      ]

  -- With a policy whose leverage range is one: a signal of the rules or of the model, whatever the verdict of
  -- the strategies, the answer, the range of the market and the snapshot are, has a leverage within the
  -- range of the policy, and at least the confidence that the run demands.
  pub signals-IsAllowed :
      (decision : PolicyDecision) (answer : Option (Validated D F)) (atr : Option F)
      (snapshot : FeatureSnapshot F) (last : Candle F)
      → IsAllowed (technical_signal cfg params decision atr snapshot last).0
        × IsAllowed (judge cfg params answer (atr_or_zero cfg params atr) snapshot last).0
  signals-IsAllowed decision answer atr snapshot last = (
    technical-IsAllowed decision atr snapshot last,
    judge-IsAllowed answer (atr_or_zero cfg params atr) snapshot last,
  )
