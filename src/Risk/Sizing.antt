-- ===== src/Risk/Sizing.antt =====
-- backend/internal/risk/engine.go: the leverage range, the size and the risk level.
use crypto_market_advisor.Base.{
  ℕ, suc, Bool, not, ◌&&◌, ◌||◌, if◌then◌else◌, Option, none, some, List, [], ◌∷◌, ◌++◌, length,
  leb,
}
use crypto_market_advisor.Base.Int.{ℤ, pos, ltb_ℤ, leb_ℤ, ◌-ℤ◌}
use crypto_market_advisor.Numbers.Decimal.{
  Decimal, nought, less_than, less_than_or_equal, greater_than,
}
use crypto_market_advisor.Numbers.Float.{Float, Conversion, int}
use crypto_market_advisor.Domain.RiskLevel.{RiskLevel}
use crypto_market_advisor.Domain.Recommendation.{quality_ok}
use crypto_market_advisor.Risk.Input
use crypto_market_advisor.Risk.Input.{RiskConfig, Input, Note, Reason, no_adjustment, one, first_of}
use crypto_market_advisor.Risk.Readings.{primary_atr_pct, volatility_percentile, stop_distance_pct}

-- `riskMax`: the whole part of the allowed leverage, within the configured range.
abbrev pub clamp : (low high : ℤ) → ℤ → ℤ
clamp low high x =
    let raised = if ltb_ℤ x low then low else x in if ltb_ℤ high raised then high else raised

abbrev pub recommend : (low : ℤ) → (risk_max suggested : ℤ) → ℤ
recommend low risk_max suggested =
    let wanted = if leb_ℤ suggested (pos 0) then low else suggested in
    let capped = if ltb_ℤ risk_max wanted then risk_max else wanted in
    if ltb_ℤ capped low then low else capped

module _ {D F : Type 0} where
  unfoldable pub summarize : List (Note D F) → Reason D F
  summarize [] = no_adjustment
  summarize (n ∷ []) = one n
  summarize (n ∷ m ∷ ns) = first_of n (suc (length ns))

  -- The size that is wanted: the model's, or that of the risk budget, with the note of it.
  abbrev pub wanted_size : (asked : D) → Option (D × F) → D
  wanted_size asked none = asked
  wanted_size asked (some (sized, distance)) = sized

  abbrev budget_notes : (risk : F) → Option (D × F) → List (Note D F)
  budget_notes risk none = []
  budget_notes risk (some (sized, distance)) = Input.size_by_risk sized risk distance ∷ []

module _ {D : Type 0} ⦃d : Decimal D⦄ where
  abbrev pub scaled : D → D → D
  scaled a factor = d.round 2 (d.mul a factor)

module _ {F : Type 0} ⦃f : Float F⦄ where
  abbrev plus_if : Bool → F → F → F
  plus_if test x score = if test then f.add score x else score

  -- The parts of the score that come from the range of the prices.
  abbrev range_score : Option F → (high : F) → F
  range_score none high = f.add (int 0) (int 1)
  range_score (some atr) high = f.add (int 0) (f.min (int 2) (f.div atr high))

  abbrev percentile_score : Option F → F → F
  percentile_score none score = score
  percentile_score (some p) score =
      plus_if (f.le (int 85) p) (f.add (int 1) (f.div (f.sub p (int 85)) (int 30))) score

  abbrev pub level_of_score : F → RiskLevel
  level_of_score score =
      if f.le (int 5) score
      then RiskLevel.extreme
      else if f.le (f.lit 34 1) score
      then RiskLevel.high
      else if f.le (f.lit 18 1) score
      then RiskLevel.medium
      else RiskLevel.low

module _ {D F : Type 0} ⦃d : Decimal D⦄ ⦃f : Float F⦄ ⦃c : Conversion D F⦄ where
  -- `riskSizedAllocation`; `none` is its `false`.
  unfoldable pub risk_sized_allocation : (risk : F) → (leverage : ℤ) → (distance : F) → Option D
  risk_sized_allocation risk leverage distance =
      if f.le risk (int 0) || leb_ℤ leverage (pos 0) || f.le distance (int 0)
      then none
      else let allocation = f.div (f.mul risk (int 100)) (f.mul (f.of_int leverage) distance) in
        if f.is_nan allocation || f.is_inf allocation || f.le allocation (int 0)
        then none
        else some (c.to_decimal allocation)

  -- The size that the risk budget sets, if there is one.
  unfoldable pub budget_size : RiskConfig D F → Input D F → (leverage : ℤ) → Option (D × F)
  unfolding stop_distance_pct risk_sized_allocation
  budget_size cfg req leverage =
      if f.lt (int 0) cfg.risk_per_trade_pct
      then elim (stop_distance_pct req) [
        | none ↦ none
        | some distance ↦ elim (risk_sized_allocation cfg.risk_per_trade_pct leverage distance) [
          | none ↦ none
          | some sized ↦ some (sized, distance)
        ]
      ]
      else none

  -- `allocation`, with the notes that it adds.
  unfoldable pub allocation :
      RiskConfig D F → Input D F → (leverage risk_max : ℤ) → D × List (Note D F)
  unfolding budget_size
  allocation cfg req leverage risk_max =
      if less_than_or_equal req.llm_allocation nought
      then (nought, [])
      else let budget = budget_size cfg req leverage in
        let wanted = wanted_size req.llm_allocation budget in
        let reduced = greater_than wanted cfg.max_recommended_alloc_pct in
        let capped = if reduced then cfg.max_recommended_alloc_pct else wanted in
        let unsure = ltb_ℤ req.confidence (pos 65) in
        let confident = if unsure then scaled capped (c.to_decimal (f.lit 7 1)) else capped in
        let at_floor = leb_ℤ risk_max cfg.min_leverage in
        let floored = if at_floor then scaled confident (c.to_decimal (f.lit 8 1)) else confident in
        let graded =
          if quality_ok req.snapshot.data_quality
          then floored
          else scaled floored (c.to_decimal (f.lit 7 1)) in
        let least = c.to_decimal (f.lit 5 1) in
        let size =
          if f.lt (int 0) cfg.risk_per_trade_pct && less_than graded least then least else graded in
        (
          d.round 2 size,
          budget_notes cfg.risk_per_trade_pct budget
              ++ (if reduced
                  then Input.allocation_reduced wanted cfg.max_recommended_alloc_pct ∷ []
                  else [])
              ++ (if unsure then Input.scaled_for_confidence confident req.confidence ∷ [] else [])
              ++ (if at_floor then Input.scaled_at_floor ∷ [] else []),
        )

module _ {D F : Type 0} ⦃f : Float F⦄ where
  -- The score of `riskLevel`, one addition after the other.
  unfoldable pub risk_score : RiskConfig D F → Input D F → (leverage risk_max : ℤ) → (notes : ℕ) → F
  unfolding primary_atr_pct volatility_percentile
  risk_score cfg req leverage risk_max notes =
      let s0 = range_score (primary_atr_pct req.snapshot) cfg.high_volatility_atr_pct in
      let s1 = percentile_score (volatility_percentile req.snapshot) s0 in
      let s2 = f.add s1 (f.mul (f.div (f.of_int leverage) (f.of_int cfg.max_leverage)) (int 2)) in
      let cut = f.sub (int 1) (
        f.div (f.of_int (risk_max -ℤ cfg.min_leverage))
          (f.of_int (cfg.max_leverage -ℤ cfg.min_leverage))) in
      let s3 =
        plus_if (ltb_ℤ cfg.min_leverage cfg.max_leverage) (f.mul (f.max (int 0) cut) (f.lit 15 1))
          s2 in
      let s4 = plus_if (leb 4 notes) (f.lit 5 1) s3 in
      let s5 = plus_if (ltb_ℤ req.confidence (pos 60)) (int 1) s4 in
      let s6 = plus_if (not (quality_ok req.snapshot.data_quality)) (f.lit 5 1) s5 in
      f.add s6 req.snapshot.volatility_risk
