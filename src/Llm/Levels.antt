-- ===== src/Llm/Levels.antt =====
-- backend/internal/llm/validate.go: the levels that `validateTargets` lets through.
use crypto_market_advisor.Base.{
  ℕ, suc, ◌+◌, String, ◌≡◌, refl, ap, inl, inr, ◌⊎◌, Bool, true, false, not, ◌&&◌, ◌||◌, if_elim,
  Option, none, some, List, [], ◌∷◌, map, length, ltb, All, arith, Bool-cases,
}
use crypto_market_advisor.Numbers.Float.{Float, int, is_finite}
use crypto_market_advisor.Domain.Direction
use crypto_market_advisor.Domain.Direction.{Direction, long, short, other}
use crypto_market_advisor.Domain.Plan.{PriceTarget}
use crypto_market_advisor.Llm.Problems.{
  Field, take_profit, stop_loss, Problem, ValidationContext, TargetJson,
}
use crypto_market_advisor.Llm.Targets.{
  reverse_onto, direction_ok, swaps, move_left, sort_from, sort_targets, Checked, good, bad,
  rescaled, check_rest, check_target, check_targets, normalised, finish_targets, validate_targets,
}

module _ {A : Type 0} (P : A → Type 0) where
  reverse_onto-All : (xs ys : List A) → All P xs → All P ys → All P (reverse_onto xs ys)
  reverse_onto-All [] ys h k = k
  reverse_onto-All (x ∷ xs) ys (h, hs) k = reverse_onto-All xs (x ∷ ys) hs (h, k)

module _ {F : Type 0} ⦃f : Float F⦄ (direction : Direction) (field : Field) where
  module _ (P : PriceTarget F → Type 0) where
    move_left-All :
        (t : PriceTarget F) (us : List (PriceTarget F))
        → P t
        → All P us
        → All P (move_left direction field t us)
    unfolding move_left
    move_left-All t [] h k = (h, tt)
    move_left-All t (u ∷ us) h (k, ks) =
        if_elim (All P) (swaps direction field u t) (k, move_left-All t us h ks) (h, (k, ks))

    sort_from-All :
        (left right : List (PriceTarget F))
        → All P left
        → All P right
        → All P (sort_from direction field left right)
    unfolding sort_from
    sort_from-All left [] h k = reverse_onto-All P left [] h tt
    sort_from-All left (t ∷ ts) h (k, ks) =
        sort_from-All (move_left direction field t left) ts (move_left-All t left k h) ks

    sort_targets-All :
        (ts : List (PriceTarget F)) → All P ts → All P (sort_targets direction field ts)
    unfolding sort_targets
    sort_targets-All ts h = sort_from-All [] ts tt h

  move_left-length :
      (t : PriceTarget F) (us : List (PriceTarget F))
      → length (move_left direction field t us) ≡ suc (length us)
  unfolding move_left
  move_left-length t [] = refl
  move_left-length t (u ∷ us) =
      if_elim (λ (xs : List (PriceTarget F)). length xs ≡ suc (suc (length us)))
        (swaps direction field u t) (ap suc (move_left-length t us)) refl

  reverse_onto-length :
      (xs ys : List (PriceTarget F)) → length (reverse_onto xs ys) ≡ length xs + length ys
  reverse_onto-length [] ys = omega arith
  reverse_onto-length (x ∷ xs) ys = omega (arith, reverse_onto-length xs (x ∷ ys))

  sort_from-length :
      (left right : List (PriceTarget F))
      → length (sort_from direction field left right) ≡ length left + length right
  unfolding sort_from
  sort_from-length left [] = reverse_onto-length left []
  sort_from-length left (t ∷ ts) =
      omega (arith, sort_from-length (move_left direction field t left) ts, move_left-length t left)

  pub sort_targets-length :
      (ts : List (PriceTarget F)) → length (sort_targets direction field ts) ≡ length ts
  unfolding sort_targets
  sort_targets-length ts = omega (arith, sort_from-length [] ts)

passed : (a b : Bool) → a ≡ true → (a && not b) ≡ false → b ≡ true
passed a b h k = ground arith

module _ {F : Type 0} ⦃f : Float F⦄ where
  -- The targets of a long position and the stops of a short one are above the reference price, the stops
  -- of a long position and the targets of a short one below it.
  abbrev pub IsBeyond : Direction → Field → (reference price : F) → Type 0
  IsBeyond long take_profit reference price = f.lt reference price ≡ true
  IsBeyond long stop_loss reference price = f.lt price reference ≡ true
  IsBeyond short take_profit reference price = f.lt price reference ≡ true
  IsBeyond short stop_loss reference price = f.lt reference price ≡ true
  IsBeyond (other s) field reference price = f.lt reference price ≡ true

  direction_ok-IsBeyond :
      (direction : Direction) (field : Field) (reference price : F)
      → direction_ok price reference direction field ≡ true
      → IsBeyond direction field reference price
  unfolding direction_ok Direction.is_long Direction.is_short
  direction_ok-IsBeyond long take_profit reference price h = h
  direction_ok-IsBeyond long stop_loss reference price h = h
  direction_ok-IsBeyond short take_profit reference price h = h
  direction_ok-IsBeyond short stop_loss reference price h = h
  direction_ok-IsBeyond (other s) take_profit reference price h = h
  direction_ok-IsBeyond (other s) stop_loss reference price h = h

module _ {F : Type 0} ⦃f : Float F⦄ (trim : String → String) (field : Field) (direction : Direction)
    (reference : F) where
  -- A level that may stand in a plan: its price is finite and positive, and beyond the reference price,
  -- where that is positive.
  abbrev pub IsLevel : PriceTarget F → Type 0
  IsLevel t =
      (is_finite t.price ≡ true)
      × (f.le t.price (int 0) ≡ false)
      × ((f.lt (int 0) reference ≡ false) ⊎ IsBeyond direction field reference t.price)

  right_side :
      (price : F)
      → (f.lt (int 0) reference && not (direction_ok price reference direction field)) ≡ false
      → (f.lt (int 0) reference ≡ false) ⊎ IsBeyond direction field reference price
  right_side price h = elim (Bool-cases (f.lt (int 0) reference)) [
    | inr e ↦ inl e
    | inl e ↦ inr (direction_ok-IsBeyond direction field reference price (passed _ _ e h))
  ]

  abbrev LevelIfGood : Checked F → Type 0
  LevelIfGood (good t) = IsLevel t
  LevelIfGood (bad p) = Unit

  check_rest-IsLevel :
      (i : ℕ) (price : F) (pct : Option F) (reason : String)
      → is_finite price ≡ true
      → f.le price (int 0) ≡ false
      → LevelIfGood (check_rest trim field direction reference i price pct reason)
  unfolding check_rest
  check_rest-IsLevel i price none reason h k = tt
  check_rest-IsLevel i price (some pct) reason h k = if_elim LevelIfGood (not (is_finite pct)) tt (
      if_elim LevelIfGood (f.le pct (int 0) || f.lt (int 100) pct) tt
        (elim (Bool-cases
          (f.lt (int 0) reference && not (direction_ok price reference direction field))) [
            | inl e ↦ rw e tt
            | inr e ↦ rw e (h, k, right_side price e)
          ]))

  check_target-IsLevel :
      (i : ℕ) (price pct : Option F) (reason : String)
      → LevelIfGood (check_target trim field direction reference i price pct reason)
  unfolding check_target
  check_target-IsLevel i none pct reason = tt
  check_target-IsLevel i (some price) pct reason = elim (Bool-cases (is_finite price)) [
    | inr e ↦ rw e tt
    | inl e ↦ elim (Bool-cases (f.le price (int 0))) [
      | inl k ↦ rw (e, k) tt
      | inr k ↦ rw (e, k) (check_rest-IsLevel i price pct reason e k)
    ]
  ]

  check_targets-All :
      (i : ℕ) (sum : F) (ts : List (TargetJson F))
      → All IsLevel (check_targets trim field direction reference i sum ts).0
  unfolding check_targets
  check_targets-All i sum [] = tt
  check_targets-All i sum (t ∷ ts) =
      after (check_target trim field direction reference i t.price t.close_pct t.reason)
        (check_target-IsLevel i t.price t.close_pct t.reason) (check_targets-All (suc i) sum ts)
        (λ g. check_targets-All (suc i) (f.add sum g.close_pct) ts)
    where
      after :
          (x : Checked F)
          → LevelIfGood x
          → All IsLevel (check_targets trim field direction reference (suc i) sum ts).0
          → ((g : PriceTarget F)
              → All IsLevel
                  (check_targets trim field direction reference
                    (suc i)
                    (f.add sum g.close_pct)
                    ts).0)
          → All IsLevel
              (elim x as (λ _. List (PriceTarget F) × F × List (Problem F)) [
                | bad p ↦
                    let (out, total, problems) =
                      check_targets trim field direction reference (suc i) sum ts in
                    (out, total, p ∷ problems)
                | good g ↦
                    let (out, total, problems) =
                      check_targets trim field direction reference
                        (suc i)
                        (f.add sum g.close_pct)
                        ts in
                    (g ∷ out, total, problems)
              ]).0
      after (bad p) h k l = k
      after (good g) h k l = (h, l g)

  rescaled-All :
      (sum : F) (ts : List (PriceTarget F)) → All IsLevel ts → All IsLevel (map (rescaled sum) ts)
  rescaled-All sum [] h = tt
  rescaled-All sum (t ∷ ts) (h, hs) = (h, rescaled-All sum ts hs)

  normalised-All :
      (sum : F) (ts : List (PriceTarget F)) → All IsLevel ts → All IsLevel (normalised sum ts)
  unfolding normalised
  normalised-All sum ts h =
      if_elim (All IsLevel) (f.lt (int 0) sum && not (f.eq sum (int 100))) (rescaled-All sum ts h) h

  finish_targets-All :
      (ctx : ValidationContext F) (out : List (PriceTarget F)) (sum : F) (ps : List (Problem F))
      → All IsLevel out
      → All IsLevel (finish_targets trim field direction reference ctx out sum ps).0
  unfolding finish_targets
  finish_targets-All ctx out sum (p ∷ ps) h = tt
  finish_targets-All ctx out sum [] h =
      if_elim (λ (r : List (PriceTarget F) × List (Problem F)). All IsLevel r.0)
        (f.lt ctx.close_tolerance_pct (f.abs (f.sub sum (int 100)))) tt
        (sort_targets-All direction field IsLevel (normalised sum out) (normalised-All sum out h))

  -- Every level that `validateTargets` returns has a finite and positive price, on the side of the
  -- reference price that its direction and its field ask for, where the reference is positive:
  -- targets of a long position above it and stops below, and the mirror image for a short one.
  pub validate_targets-IsLevel :
      (ctx : ValidationContext F) (ts : List (TargetJson F))
      → All IsLevel (validate_targets trim field direction reference ctx ts).0
  unfolding validate_targets
  validate_targets-IsLevel ctx [] = tt
  validate_targets-IsLevel ctx (t ∷ ts) =
      if_elim (λ (r : List (PriceTarget F) × List (Problem F)). All IsLevel r.0)
        (ltb 6 (length (t ∷ ts))) tt
        (finish_targets-All ctx _ _ _ (check_targets-All 0 (int 0) (t ∷ ts)))
