-- ===== src/Llm/Ranges.antt =====
-- backend/internal/llm/validate.go: the ranges of the numbers that the checks let through.
use crypto_market_advisor.Base.{
  ◌≡◌, refl, subst, inl, inr, true, false, Option, none, some, arith, Bool-cases,
}
use crypto_market_advisor.Base.Int.{ℤ, pos, ◌≤ℤ◌}
use crypto_market_advisor.Numbers.Float.{Float, int, is_finite}
use crypto_market_advisor.Numbers.Order.{◌⊑◌}
use crypto_market_advisor.Numbers.Rounding.{IsRounding}
use crypto_market_advisor.Domain.RecommendationAction
use crypto_market_advisor.Domain.RecommendationAction.{RecommendationAction}
use crypto_market_advisor.Llm.Problems.{Problem, ValidationContext}
use crypto_market_advisor.Llm.Numbers.{validate_confidence, validate_leverage}

module _ {F : Type 0} where
  -- A whole number between two bounds and no problem, or zero and a problem.
  abbrev pub InRangeOrNone : (low high : ℤ) → ℤ × Option (Problem F) → Type 0
  InRangeOrNone low high (n, none) = (low ≤ℤ n) × (n ≤ℤ high)
  InRangeOrNone low high (n, some p) = n ≡ pos 0

module _ {F : Type 0} ⦃f : Float F⦄ (laws : IsRounding F) where
  -- A finite value between two whole numbers is rounded to a whole number between them.
  rounded-range :
      (low high : ℤ) (v : F)
      → f.to_int (f.of_int low) ≡ low
      → f.to_int (f.of_int high) ≡ high
      → is_finite v ≡ true
      → f.lt v (f.of_int low) ≡ false
      → f.lt (f.of_int high) v ≡ false
      → (low ≤ℤ f.to_int (f.round v)) × (f.to_int (f.round v) ≤ℤ high)
  rounded-range low high v l h finite below above =
      laws.to_int_range low high (f.round v) l h
        (subst (λ x. x ⊑ f.round v) (laws.round-int low)
          (laws.round_mono (f.of_int low) v (laws.int-le low v finite below)))
        (subst (λ x. f.round v ⊑ x) (laws.round-int high)
          (laws.round_mono v (f.of_int high) (laws.le-int v high finite above)))

  -- The confidence that `validateConfidence` returns without a problem is between 0 and 100, and with
  -- a problem it is 0.
  pub validate_confidence-range :
      (v : Option F) → InRangeOrNone (pos 0) (pos 100) (validate_confidence v)
  unfolding validate_confidence
  validate_confidence-range none = refl
  validate_confidence-range (some v) = elim (Bool-cases (is_finite v)) [
    | inr e ↦ rw e refl
    | inl e ↦ elim (Bool-cases (f.lt v (int 0))) [
      | inl k ↦ rw (e, k) refl
      | inr k ↦ elim (Bool-cases (f.lt (int 100) v)) [
        | inl l ↦ rw (e, k, l) refl
        | inr l ↦
            rw (e, k, l)
              (rounded-range (pos 0) (pos 100) v (laws.to_int-int 0 (omega arith))
                (laws.to_int-int 100 (omega arith)) e k l)
      ]
    ]
  ]

  -- The leverage that `validateLeverage` returns for an entry without a problem is within the range of
  -- the context, if float64 represents its bounds, and with a problem it is 0.
  pub validate_leverage-range :
      (v : Option F) (chosen : RecommendationAction) (ctx : ValidationContext F)
      → RecommendationAction.is_entry chosen ≡ true
      → f.to_int (f.of_int ctx.min_leverage) ≡ ctx.min_leverage
      → f.to_int (f.of_int ctx.max_leverage) ≡ ctx.max_leverage
      → InRangeOrNone ctx.min_leverage ctx.max_leverage (validate_leverage v chosen ctx)
  unfolding validate_leverage
  validate_leverage-range none chosen ctx entry low high = rw entry refl
  validate_leverage-range (some v) chosen ctx entry low high = elim (Bool-cases (is_finite v)) [
    | inr e ↦ rw e refl
    | inl e ↦ elim (Bool-cases (f.lt v (f.of_int ctx.min_leverage))) [
      | inl k ↦ rw (e, k) refl
      | inr k ↦ elim (Bool-cases (f.lt (f.of_int ctx.max_leverage) v)) [
        | inl l ↦ rw (e, k, l) refl
        | inr l ↦ rw (e, k, l) (rounded-range ctx.min_leverage ctx.max_leverage v low high e k l)
      ]
    ]
  ]
