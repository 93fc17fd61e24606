-- ===== src/Outcomes/Consistency.antt =====
-- backend/internal/recommendations/outcomes.go: the status that `evaluateOne` gives an outcome.
use crypto_market_advisor.Base.{
  ℕ, ◌≡◌, refl, subst, inl, inr, Bool, true, false, not, Option, none, some, List, [], ◌∷◌,
  Bool-cases, if_elim,
}
use crypto_market_advisor.Numbers.Float.{Float, Conversion, int}
use crypto_market_advisor.Domain.Timeframe.{Time}
use crypto_market_advisor.Domain.Market.{Candle}
use crypto_market_advisor.Domain.Direction.{Direction, long}
use crypto_market_advisor.Domain.RecommendationAction
use crypto_market_advisor.Domain.Recommendation.{Recommendation, Outcome}
use crypto_market_advisor.Domain.Kinds.{
  OutcomeStatus, pending, tp_hit, sl_hit, ambiguous, neither, no_trade, win, loss, unset,
}
use crypto_market_advisor.Outcomes.Hits.{
  HitResult, no_hit, tp_hit_at, sl_hit_at, unresolved, Touch, untouched, only_tp, only_sl, both,
  inside, touch, resolve_with_finer, verdict, detect_hits,
}
use crypto_market_advisor.Outcomes.Evaluate.{
  blank, is_empty, pick_series, is_old, measured, settled, without_candles, with_candles,
  evaluate_one,
}

-- The four results of `detectHits`.
pub data IsHit : HitResult → Type 0 where
  nothing : IsHit no_hit
  target : (i : ℕ) → IsHit (tp_hit_at i)
  stop : (j : ℕ) → IsHit (sl_hit_at j)
  conflict : (i j : ℕ) → IsHit (unresolved i j)

module _ {F : Type 0} where
  -- What an outcome says that has this status; `old` tells that the horizon has passed.
  abbrev pub Says : OutcomeStatus → (old : Bool) → Outcome F → Type 0
  Says pending old o =
      (o.finalized ≡ false)
      × (o.result ≡ unset)
      × (o.first_tp_hit_index ≡ none)
      × (o.first_sl_hit_index ≡ none)
      × (old ≡ false)
  Says tp_hit old o =
      (o.finalized ≡ true)
      × (o.result ≡ win)
      × ((i : ℕ) × (o.first_tp_hit_index ≡ some i))
      × (o.first_sl_hit_index ≡ none)
      × (o.is_ambiguous ≡ false)
  Says sl_hit old o =
      (o.finalized ≡ true)
      × (o.result ≡ loss)
      × (o.first_tp_hit_index ≡ none)
      × ((j : ℕ) × (o.first_sl_hit_index ≡ some j))
      × (o.is_ambiguous ≡ false)
  Says ambiguous old o =
      (o.finalized ≡ true)
      × (o.result ≡ unset)
      × ((i : ℕ) × (o.first_tp_hit_index ≡ some i))
      × ((j : ℕ) × (o.first_sl_hit_index ≡ some j))
      × (o.is_ambiguous ≡ true)
  Says neither old o =
      (o.finalized ≡ true)
      × (o.first_tp_hit_index ≡ none)
      × (o.first_sl_hit_index ≡ none)
      × (o.is_ambiguous ≡ false)
      × (old ≡ true)
  Says no_trade old o =
      (o.finalized ≡ old)
      × (o.result ≡ unset)
      × (o.first_tp_hit_index ≡ none)
      × (o.first_sl_hit_index ≡ none)
      × (o.is_ambiguous ≡ false)

-- A result that was decided is one of the four.
abbrev Good : Option HitResult → Type 0
Good none = Unit
Good (some r) = IsHit r

resolved-Good :
    (t : Touch) (rest : Option HitResult)
    → Good rest
    → Good (elim t [
      | untouched ↦ rest
      | only_tp i ↦ some (tp_hit_at i)
      | only_sl j ↦ some (sl_hit_at j)
      | both i j ↦ none
    ])
resolved-Good untouched rest h = h
resolved-Good (only_tp i) rest h = target i
resolved-Good (only_sl j) rest h = stop j
resolved-Good (both i j) rest h = tt

finer-Good :
    (i j : ℕ) (finer : Option HitResult)
    → Good finer
    → Good (elim finer [ some r ↦ some r | none ↦ some (unresolved i j) ])
finer-Good i j none h = conflict i j
finer-Good i j (some r) h = h

verdict_of-Good :
    (t : Touch) (finer : Option HitResult)
    → Good finer
    → Good (elim t [
      | untouched ↦ none
      | only_tp i ↦ some (tp_hit_at i)
      | only_sl j ↦ some (sl_hit_at j)
      | both i j ↦ elim finer [ some r ↦ some r | none ↦ some (unresolved i j) ]
    ])
verdict_of-Good untouched finer h = tt
verdict_of-Good (only_tp i) finer h = target i
verdict_of-Good (only_sl j) finer h = stop j
verdict_of-Good (both i j) finer h = finer-Good i j finer h

decided-IsHit :
    (o : Option HitResult) (rest : HitResult)
    → Good o
    → IsHit rest
    → IsHit (elim o [ some r ↦ r | none ↦ rest ])
decided-IsHit none rest h k = k
decided-IsHit (some r) rest h k = h

module _ {D F : Type 0} ⦃f : Float F⦄ (rec : Recommendation D F) (direction : Direction) where
  resolve_with_finer-Good :
      (fine : List (Candle F)) (c : Candle F) → Good (resolve_with_finer rec direction fine c)
  unfolding resolve_with_finer
  resolve_with_finer-Good [] c = tt
  resolve_with_finer-Good (x ∷ xs) c =
      if_elim Good (inside rec direction c x)
        (resolved-Good (touch rec direction x) (resolve_with_finer rec direction xs c)
          (resolve_with_finer-Good xs c))
        (resolve_with_finer-Good xs c)

  verdict-Good : (fine : List (Candle F)) (c : Candle F) → Good (verdict rec direction fine c)
  unfolding verdict
  verdict-Good fine c =
      verdict_of-Good (touch rec direction c) (resolve_with_finer rec direction fine c)
        (resolve_with_finer-Good fine c)

  -- `detectHits` has one of four results: nothing, the index of a target, the index of a stop, or both
  -- with the mark of ambiguity.
  pub detect_hits-IsHit :
      (series fine : List (Candle F)) → IsHit (detect_hits rec direction series fine)
  unfolding detect_hits
  detect_hits-IsHit [] fine = nothing
  detect_hits-IsHit (c ∷ cs) fine =
      decided-IsHit (verdict rec direction fine c) (detect_hits rec direction cs fine)
        (verdict-Good fine c) (detect_hits-IsHit cs fine)

module _ {F : Type 0} ⦃f : Float F⦄ where
  -- The `switch` over the hits writes a status that agrees with them.
  settled-Says :
      (o : Outcome F) (hit : HitResult) (old : Bool) (reference : F) (direction : Direction)
      → IsHit hit
      → o.finalized ≡ false
      → o.status ≡ pending
      → o.result ≡ unset
      → let r = settled o hit old reference direction in Says r.status old r
  unfolding settled
  settled-Says o hit true reference direction nothing e s u = (refl, refl, refl, refl, refl)
  settled-Says o hit false reference direction nothing e s u = rw s (e, u, refl, refl, refl)
  settled-Says o hit old reference direction (target i) e s u = (refl, refl, (i, refl), refl, refl)
  settled-Says o hit old reference direction (stop j) e s u = (refl, refl, refl, (j, refl), refl)
  settled-Says o hit old reference direction (conflict i j) e s u =
      (refl, u, (i, refl), (j, refl), refl)

module _ {F : Type 0} where
  abbrev SaysIfAny : (old : Bool) → Option (Outcome F) → Type 0
  SaysIfAny old none = Unit
  SaysIfAny old (some o) = Says o.status old o

module _ {D F : Type 0} ⦃f : Float F⦄ ⦃c : Conversion D F⦄ where
  measured-pending :
      (now : Time) (rec : Recommendation D F) (series : List (Candle F)) (direction : Direction)
      → let o = measured (blank rec.id now) rec series direction in
        (o.finalized ≡ false)
        × (o.status ≡ pending)
        × (o.result ≡ unset)
        × (o.first_tp_hit_index ≡ none)
        × (o.first_sl_hit_index ≡ none)
        × (o.is_ambiguous ≡ false)
  unfolding measured
  measured-pending now rec series direction = (refl, refl, refl, refl, refl, refl)

  with_candles-Says :
      (now : Time) (rec : Recommendation D F) (series fine : List (Candle F))
      → SaysIfAny (is_old rec now) (with_candles now rec series fine)
  unfolding with_candles
  with_candles-Says now rec series fine =
      let (e, s, u, t, l, m) = measured-pending now rec series long in
      let (e', s', u', _, _, _) =
        measured-pending now rec series (RecommendationAction.direction rec.action).0 in
      if_elim (SaysIfAny (is_old rec now)) (f.le (c.to_float rec.reference_price) (int 0)) tt (
        if_elim (SaysIfAny (is_old rec now)) (not (RecommendationAction.direction rec.action).1)
          (refl, u, t, l, m)
          (settled-Says
            (measured (blank rec.id now) rec series (RecommendationAction.direction rec.action).0)
            (detect_hits rec (RecommendationAction.direction rec.action).0 series fine)
            (is_old rec now) (c.to_float rec.reference_price)
            (RecommendationAction.direction rec.action).0
            (detect_hits-IsHit rec (RecommendationAction.direction rec.action).0 series fine) e' s'
            u'))

  without_candles-Says :
      (now : Time) (rec : Recommendation D F) → SaysIfAny (is_old rec now) (without_candles now rec)
  without_candles-Says now rec = elim (Bool-cases (is_old rec now)) [
    | inl e ↦ rw e (refl, refl, refl, refl, refl)
    | inr e ↦ rw e tt
  ]

  -- An outcome that `evaluateOne` returns says what its status means: pending is not final and
  -- has no result; a target hit is a final win and a stop hit a final loss, with the one index set; an
  -- ambiguous one is final without a result, with both indices set; neither is final, without an index,
  -- and only after the horizon; no trade has no result and is final exactly after the horizon.
  pub evaluate_one-Says :
      (now : Time) (rec : Recommendation D F) (fine coarse : List (Candle F)) (o : Outcome F)
      → evaluate_one now rec fine coarse ≡ some o
      → Says o.status (is_old rec now) o
  unfolding evaluate_one
  evaluate_one-Says now rec fine coarse o h = subst (SaysIfAny (is_old rec now)) h (
      if_elim (SaysIfAny (is_old rec now)) (is_empty (pick_series fine coarse))
        (without_candles-Says now rec) (with_candles-Says now rec (pick_series fine coarse) fine))
