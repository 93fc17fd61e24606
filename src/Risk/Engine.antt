-- ===== src/Risk/Engine.antt =====
-- backend/internal/risk/engine.go: `Evaluate`, with the configuration that is active during the call.
use crypto_market_advisor.Base.{if◌then◌else◌, none, [], ◌∷◌, ◌++◌, length}
use crypto_market_advisor.Base.Int.{pos, ltb_ℤ, leb_ℤ}
use crypto_market_advisor.Numbers.Decimal.{Decimal, nought}
use crypto_market_advisor.Numbers.Float.{Float, Conversion}
use crypto_market_advisor.Domain.RecommendationAction
use crypto_market_advisor.Risk.Input
use crypto_market_advisor.Risk.Input.{RiskConfig, Input, Note, LeveragePlan, Assessment, no_reason}
use crypto_market_advisor.Risk.Readings.{stop_distance_pct}
use crypto_market_advisor.Risk.Leverage.{limits}
use crypto_market_advisor.Risk.Sizing.{
  clamp, recommend, summarize, allocation, risk_score, level_of_score,
}

module _ {D F : Type 0} ⦃d : Decimal D⦄ ⦃f : Float F⦄ ⦃c : Conversion D F⦄ where
  -- What `Evaluate` returns for an action that opens nothing.
  abbrev pub no_exposure : Input D F → Assessment D F
  no_exposure req = record {
    leverage = record {
      llm_suggested = pos 0;
      risk_maximum = pos 0;
      recommended = pos 0;
      risk_reason = no_reason;
    };
    allocation_pct = nought;
    risk_level = req.llm_risk_level;
    notes = [];
    stop_distance = none;
  }

  unfoldable pub evaluate_entry : RiskConfig D F → Input D F → Assessment D F
  unfolding limits allocation risk_score summarize stop_distance_pct
  evaluate_entry cfg req =
      let draft = limits cfg req in
      let risk_max = clamp cfg.min_leverage cfg.max_leverage (f.to_int (f.floor draft.max_lev)) in
      let recommended = recommend cfg.min_leverage risk_max req.llm_leverage in
      let wanted = if leb_ℤ req.llm_leverage (pos 0) then cfg.min_leverage else req.llm_leverage in
      let notes =
        if ltb_ℤ risk_max wanted
        then draft.notes ++ (Input.leverage_adjusted req.llm_leverage risk_max ∷ [])
        else draft.notes in
      let (size, size_notes) = allocation cfg req recommended risk_max in
      record {
        leverage = record {
          llm_suggested = req.llm_leverage;
          risk_maximum = risk_max;
          recommended = recommended;
          risk_reason = summarize notes;
        };
        allocation_pct = size;
        risk_level =
            level_of_score (risk_score cfg req recommended risk_max (length (notes ++ size_notes)));
        notes = notes ++ size_notes;
        stop_distance = stop_distance_pct req;
      }

  unfoldable pub evaluate : RiskConfig D F → Input D F → Assessment D F
  unfolding evaluate_entry RecommendationAction.is_entry
  evaluate cfg req =
      if RecommendationAction.is_entry req.action then evaluate_entry cfg req else no_exposure req
