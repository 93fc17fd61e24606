-- ===== src/Llm/Targets.antt =====
-- backend/internal/llm/validate.go: `validateTargets`, `directionOK` and `sortTargets`. Go's
-- strings.TrimSpace is an argument.
use crypto_market_advisor.Base.{
  ℕ, suc, String, Bool, true, false, not, ◌&&◌, ◌||◌, if◌then◌else◌, Option, none, some, List, [],
  ◌∷◌, map, length, ltb,
}
use crypto_market_advisor.Numbers.Float.{Float, int, is_finite}
use crypto_market_advisor.Domain.Direction
use crypto_market_advisor.Domain.Direction.{Direction}
use crypto_market_advisor.Domain.Plan.{PriceTarget}
use crypto_market_advisor.Llm.Problems.{
  Field, take_profit, stop_loss, Problem, too_many_levels, price_invalid, close_pct_required,
  close_pct_range, wrong_side, close_pct_sum, ValidationContext, TargetJson,
}

-- `isTakeProfit`, which goes with the field.
abbrev pub is_take_profit : Field → Bool
is_take_profit take_profit = true
is_take_profit stop_loss = false

-- A target that was checked, or what is wrong with it.
pub data Checked (F : Type 0) : Type 0 where
  good : PriceTarget F → Checked F
  bad : Problem F → Checked F

module _ {A : Type 0} where
  -- The elements put in front of others, the last one first.
  abbrev pub reverse_onto : List A → List A → List A
  reverse_onto [] ys = ys
  reverse_onto (x ∷ xs) ys = reverse_onto xs (x ∷ ys)

module _ {F : Type 0} ⦃f : Float F⦄ where
  unfoldable pub direction_ok : (price reference : F) → Direction → Field → Bool
  unfolding Direction.is_long Direction.is_short
  direction_ok price reference direction field =
      if Direction.is_long direction && is_take_profit field
      then f.lt reference price
      else if Direction.is_long direction && not (is_take_profit field)
      then f.lt price reference
      else if Direction.is_short direction && is_take_profit field
      then f.lt price reference
      else f.lt reference price

  -- Whether two neighbours are exchanged.
  unfoldable pub swaps : Direction → Field → PriceTarget F → PriceTarget F → Bool
  unfolding Direction.is_long
  swaps direction field a b =
      if (if Direction.is_long direction then is_take_profit field else not (is_take_profit field))
      then f.lt b.price a.price
      else f.lt a.price b.price

  -- The inner loop: an element goes to the left while it is to be exchanged. What stands to its left
  -- is given from the right.
  unfoldable pub move_left :
      Direction → Field → PriceTarget F → List (PriceTarget F) → List (PriceTarget F)
  unfolding swaps
  move_left direction field t [] = t ∷ []
  move_left direction field t (u ∷ us) =
      let rest = move_left direction field t us in
      if swaps direction field u t then u ∷ rest else t ∷ u ∷ us

  -- The outer loop.
  unfoldable pub sort_from :
      Direction → Field → (left right : List (PriceTarget F)) → List (PriceTarget F)
  unfolding move_left
  sort_from direction field left [] = reverse_onto left []
  sort_from direction field left (t ∷ ts) =
      sort_from direction field (move_left direction field t left) ts

  unfoldable pub sort_targets : Direction → Field → List (PriceTarget F) → List (PriceTarget F)
  unfolding sort_from
  sort_targets direction field ts = sort_from direction field [] ts

  abbrev pub rescaled : (sum : F) → PriceTarget F → PriceTarget F
  rescaled sum t = record t {
    close_pct =
        f.div (f.round (f.mul (f.mul (f.div t.close_pct sum) (int 100)) (int 100))) (int 100);
  }

  -- Small drift of the sum is normalised.
  unfoldable pub normalised : (sum : F) → List (PriceTarget F) → List (PriceTarget F)
  normalised sum out =
      if f.lt (int 0) sum && not (f.eq sum (int 100)) then map (rescaled sum) out else out

  module _ (trim : String → String) (field : Field) (direction : Direction) (reference : F) where
    -- The checks on the fraction and the side of a target with a valid price.
    unfoldable pub check_rest : (index : ℕ) → (price : F) → Option F → (reason : String) → Checked F
    unfolding direction_ok
    check_rest i price none reason = bad (close_pct_required field i)
    check_rest i price (some pct) reason =
        if not (is_finite pct)
        then bad (close_pct_required field i)
        else if f.le pct (int 0) || f.lt (int 100) pct
        then bad (close_pct_range field i pct)
        else if f.lt (int 0) reference && not (direction_ok price reference direction field)
        then bad (wrong_side field i price reference)
        else good (record { price = price; close_pct = pct; reason = trim reason })

    -- The body of the loop.
    unfoldable pub check_target : (index : ℕ) → Option F → Option F → (reason : String) → Checked F
    unfolding check_rest
    check_target i none pct reason = bad (price_invalid field i)
    check_target i (some price) pct reason =
        if not (is_finite price) || f.le price (int 0)
        then bad (price_invalid field i)
        else check_rest i price pct reason

    -- The loop: the good targets, their sum, and the problems.
    unfoldable pub check_targets :
        (index : ℕ) → (sum : F) → List (TargetJson F) → List (PriceTarget F) × F × List (Problem F)
    unfolding check_target
    check_targets i sum [] = ([], sum, [])
    check_targets i sum (t ∷ ts) = elim (check_target i t.price t.close_pct t.reason) [
      | bad p ↦
          let (out, total, problems) = check_targets (suc i) sum ts in (out, total, p ∷ problems)
      | good g ↦
          let (out, total, problems) = check_targets (suc i) (f.add sum g.close_pct) ts in
          (g ∷ out, total, problems)
    ]

    -- What follows the loop.
    unfoldable pub finish_targets :
        ValidationContext F
        → List (PriceTarget F)
        → (sum : F) → List (Problem F)
        → List (PriceTarget F) × List (Problem F)
    unfolding normalised sort_targets
    finish_targets ctx out sum (p ∷ ps) = ([], p ∷ ps)
    finish_targets ctx out sum [] =
        if f.lt ctx.close_tolerance_pct (f.abs (f.sub sum (int 100)))
        then ([], close_pct_sum field sum ∷ [])
        else (sort_targets direction field (normalised sum out), [])

    -- The levels, none of them on any problem, and the problems.
    unfoldable pub validate_targets :
        ValidationContext F → List (TargetJson F) → List (PriceTarget F) × List (Problem F)
    unfolding check_targets finish_targets
    validate_targets ctx [] = ([], [])
    validate_targets ctx (t ∷ ts) =
        if ltb 6 (length (t ∷ ts))
        then ([], too_many_levels field (length (t ∷ ts)) ∷ [])
        else let (out, sum, problems) = check_targets 0 (int 0) (t ∷ ts) in
          finish_targets ctx out sum problems
