-- ===== src/Llm/Complete.antt =====
-- backend/internal/llm/validate.go: `validateTargets` returns all levels or none.
use crypto_market_advisor.Base.{
  ℕ, suc, ◌+◌, ◌≤◌, String, ◌≡◌, refl, ap, ◌≢◌, ◌⊎◌, inl, inr, not, ◌&&◌, if_elim, List, [], ◌∷◌,
  map, length, ltb, arith, Bool-cases,
}
use crypto_market_advisor.Numbers.Float.{Float, int}
use crypto_market_advisor.Domain.Direction.{Direction}
use crypto_market_advisor.Domain.Plan.{PriceTarget}
use crypto_market_advisor.Llm.Problems.{Field, Problem, ValidationContext, TargetJson}
use crypto_market_advisor.Llm.Targets.{
  Checked, good, bad, rescaled, check_target, check_targets, normalised, finish_targets,
  validate_targets,
}
use crypto_market_advisor.Llm.Levels.{sort_targets-length}

module _ {F : Type 0} ⦃f : Float F⦄ (trim : String → String) (field : Field) (direction : Direction)
    (reference : F) where
  check_targets-length :
      (i : ℕ) (sum : F) (ts : List (TargetJson F))
      → let r = check_targets trim field direction reference i sum ts in
        length r.0 + length r.2 ≡ length ts
  unfolding check_targets
  check_targets-length i sum [] = omega arith
  check_targets-length i sum (t ∷ ts) =
      after (check_target trim field direction reference i t.price t.close_pct t.reason)
        (check_targets-length (suc i) sum ts)
        (λ g. check_targets-length (suc i) (f.add sum g.close_pct) ts)
    where
      after :
          (x : Checked F)
          → (let r = check_targets trim field direction reference (suc i) sum ts in
              length r.0 + length r.2 ≡ length ts)
          → ((g : PriceTarget F)
              → let r =
                  check_targets trim field direction reference (suc i) (f.add sum g.close_pct) ts in
                length r.0 + length r.2 ≡ length ts)
          → let r = (elim x as (λ _. List (PriceTarget F) × F × List (Problem F)) [
            | bad p ↦
                let (out, total, problems) =
                  check_targets trim field direction reference (suc i) sum ts in
                (out, total, p ∷ problems)
            | good g ↦
                let (out, total, problems) =
                  check_targets trim field direction reference (suc i) (f.add sum g.close_pct) ts in
                (g ∷ out, total, problems)
          ]) in
            length r.0 + length r.2 ≡ suc (length ts)
      after (bad p) k l = omega (arith, k)
      after (good g) k l = omega (arith, l g)

  map-length : (sum : F) (ts : List (PriceTarget F)) → length (map (rescaled sum) ts) ≡ length ts
  map-length sum [] = refl
  map-length sum (t ∷ ts) = ap suc (map-length sum ts)

  normalised-length : (sum : F) (ts : List (PriceTarget F)) → length (normalised sum ts) ≡ length ts
  unfolding normalised
  normalised-length sum ts =
      if_elim (λ (xs : List (PriceTarget F)). length xs ≡ length ts)
        (f.lt (int 0) sum && not (f.eq sum (int 100))) (map-length sum ts) refl

  -- All levels and no problem, or no level and some problem.
  abbrev pub AllOrNone : ℕ → List (PriceTarget F) × List (Problem F) → Type 0
  AllOrNone n (out, problems) =
      ((length out ≡ n) × (problems ≡ [])) ⊎ ((out ≡ []) × (problems ≢ []))

  finish_targets-AllOrNone :
      (n : ℕ) (ctx : ValidationContext F) (out : List (PriceTarget F)) (sum : F)
      (ps : List (Problem F))
      → length out + length ps ≡ n
      → AllOrNone n (finish_targets trim field direction reference ctx out sum ps)
  unfolding finish_targets
  finish_targets-AllOrNone n ctx out sum (p ∷ ps) h = inr (refl, λ e. cc)
  finish_targets-AllOrNone n ctx out sum [] h =
      if_elim (AllOrNone n) (f.lt ctx.close_tolerance_pct (f.abs (f.sub sum (int 100))))
        (inr (refl, λ e. cc))
        (inl (
          omega (
            arith,
            sort_targets-length direction field (normalised sum out),
            normalised-length sum out,
            h,
          ),
          refl,
        ))

  at_most :
      (n : ℕ) (r : List (PriceTarget F) × List (Problem F)) → AllOrNone n r → n ≤ 6 → length r.0 ≤ 6
  at_most n (out, problems) (inl (e, _)) h = omega (arith, e, h)
  at_most n (out, problems) (inr (e, _)) h = rw e (omega arith)

  -- `validateTargets` returns as many levels as it was given and adds no problem, or it returns no
  -- level and adds a problem; and it returns at most six.
  pub validate_targets-AllOrNone :
      (ctx : ValidationContext F) (ts : List (TargetJson F))
      → AllOrNone (length ts) (validate_targets trim field direction reference ctx ts)
        × (length (validate_targets trim field direction reference ctx ts).0 ≤ 6)
  unfolding validate_targets
  validate_targets-AllOrNone ctx [] = (inl (refl, refl), omega arith)
  validate_targets-AllOrNone ctx (t ∷ ts) =
      let r = check_targets trim field direction reference 0 (int 0) (t ∷ ts) in
      let done =
        finish_targets-AllOrNone (length (t ∷ ts)) ctx r.0 r.1 r.2
          (check_targets-length 0 (int 0) (t ∷ ts)) in
      elim (Bool-cases (ltb 6 (length (t ∷ ts)))) [
        | inl e ↦ rw e (inr (refl, λ n. cc), omega arith)
        | inr e ↦ rw e (
          done,
          at_most (length (t ∷ ts)) (finish_targets trim field direction reference ctx r.0 r.1 r.2)
              done (ground arith),
        )
      ]
