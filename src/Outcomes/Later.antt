-- ===== src/Outcomes/Later.antt =====
-- backend/internal/recommendations/outcomes.go: the price that `priceAfter` takes.
use crypto_market_advisor.Base.{
  ℕ, ◌+◌, ◌≤◌, ◌<◌, ◌≡◌, refl, ap, ◌⊎◌, inl, inr, true, false, none, some, List, [], ◌∷◌, ◌++◌,
  arith, Bool-cases, All, get_last?, ltb,
}
use crypto_market_advisor.Domain.Timeframe.{Time}
use crypto_market_advisor.Domain.Market.{Candle}
use crypto_market_advisor.Outcomes.Prices.{first_close, ends_before, price_after}

module _ {F : Type 0} where
  -- The first candle that closes at the target or after it, and the price at which it closes.
  abbrev pub FirstFrom : Time → List (Candle F) → F → Type 0
  FirstFrom target series p =
      (pre : List (Candle F)) × (c : Candle F) × (post : List (Candle F)) × (series
        ≡ pre ++ (c ∷ post))
      × All (λ x. x.close_time < target) pre
      × (target ≤ c.close_time)
      × (p ≡ c.close)

  first_close-FirstFrom :
      (target : Time) (series : List (Candle F)) (p : F)
      → first_close target series ≡ some p
      → FirstFrom target series p
  unfolding first_close
  first_close-FirstFrom target [] p h = ground arith
  first_close-FirstFrom target (c ∷ cs) p h = elim (Bool-cases (ltb c.close_time target)) [
    | inl e ↦
        let (pre, x, post, same, before, at, eq) =
          first_close-FirstFrom target cs p (ground arith) in
        (c ∷ pre, x, post, ap (λ xs. c ∷ xs) same, (ground arith, before), at, eq)
    | inr e ↦ ([], c, cs, refl, tt, ground arith, ground arith)
  ]

  first_close-some :
      (target : Time) (series : List (Candle F))
      → ends_before target (get_last? series) ≡ false
      → (p : F) × (first_close target series ≡ some p)
  unfolding first_close
  first_close-some target [] h = ground arith
  first_close-some target (c ∷ []) h = (c.close, ground arith)
  first_close-some target (c ∷ x ∷ xs) h = elim (Bool-cases (ltb c.close_time target)) [
    | inl e ↦ let (p, k) = first_close-some target (x ∷ xs) h in (p, ground (arith, k))
    | inr e ↦ (c.close, ground arith)
  ]

  -- `priceAfter` has no price exactly if the series is empty or ends before the target, and its price
  -- is the close of the first candle that closes at the target or after it, also where that candle opens
  -- after the target because the ones between are missing.
  pub price_after-cases :
      (series : List (Candle F)) (created_at : Time) (offset : ℕ)
      → (ends_before (created_at + offset) (get_last? series) ≡ true)
          × (price_after series created_at offset ≡ none)
        ⊎ (ends_before (created_at + offset) (get_last? series) ≡ false)
          × ((p : F) × (price_after series created_at offset ≡ some p)
              × FirstFrom (created_at + offset) series p)
  unfolding price_after
  price_after-cases series created_at offset =
      elim (Bool-cases (ends_before (created_at + offset) (get_last? series))) [
        | inl e ↦ inl (e, rw e refl)
        | inr e ↦
            let (p, h) = first_close-some (created_at + offset) series e in
            inr (e, (p, rw e h, first_close-FirstFrom (created_at + offset) series p h))
      ]

  first_close-append :
      (target : Time) (series later : List (Candle F)) (p : F)
      → first_close target series ≡ some p
      → first_close target (series ++ later) ≡ some p
  unfolding first_close
  first_close-append target [] later p h = ground arith
  first_close-append target (c ∷ cs) later p h = elim (Bool-cases (ltb c.close_time target)) [
    | inl e ↦ let k = first_close-append target cs later p (ground arith) in ground (arith, k)
    | inr e ↦ ground arith
  ]

  ends_before-append :
      (target : Time) (series later : List (Candle F))
      → ends_before target (get_last? series) ≡ false
      → All (λ x. target ≤ x.close_time) later
      → ends_before target (get_last? (series ++ later)) ≡ false
  ends_before-append target [] later e h = ground arith
  ends_before-append target (c ∷ []) [] e h = e
  ends_before-append target (c ∷ []) (x ∷ xs) e (h, hs) = ends_before-all target x xs h hs
    where
      ends_before-all :
          (target : Time) (x : Candle F) (xs : List (Candle F))
          → target ≤ x.close_time
          → All (λ x. target ≤ x.close_time) xs
          → ends_before target (get_last? (x ∷ xs)) ≡ false
      ends_before-all target x [] h hs = ground arith
      ends_before-all target x (y ∷ ys) h (k, ks) = ends_before-all target y ys k ks
  ends_before-append target (c ∷ d ∷ cs) later e h = ends_before-append target (d ∷ cs) later e h

  -- A price that is known stays the same when candles that close at the target or later are
  -- added behind the series.
  pub price_after-append :
      (series later : List (Candle F)) (created_at : Time) (offset : ℕ) (p : F)
      → All (λ x. created_at + offset ≤ x.close_time) later
      → price_after series created_at offset ≡ some p
      → price_after (series ++ later) created_at offset ≡ some p
  unfolding price_after
  price_after-append series later created_at offset p h k =
      elim (Bool-cases (ends_before (created_at + offset) (get_last? series))) [
        | inl e ↦ ground arith
        | inr e ↦
            rw (ends_before-append (created_at + offset) series later e h)
              (first_close-append (created_at + offset) series later p (ground arith))
      ]
