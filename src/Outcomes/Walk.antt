-- ===== src/Outcomes/Walk.antt =====
-- backend/internal/recommendations/outcomes.go: the walk of `detectHits` over a series.
use crypto_market_advisor.Base.{
  ◌≡◌, refl, sym, ◌∙◌, ◌≢◌, ◌⊎◌, inl, inr, false, none, some, List, [], ◌∷◌, ◌++◌, arith,
  Option-cases, All,
}
use crypto_market_advisor.Numbers.Float.{Float}
use crypto_market_advisor.Domain.Market.{Candle}
use crypto_market_advisor.Domain.Direction.{Direction}
use crypto_market_advisor.Domain.Recommendation.{Recommendation}
use crypto_market_advisor.Outcomes.Hits.{
  HitResult, no_hit, untouched, touch, inside, resolve_with_finer, verdict, detect_hits,
}

module _ {D F : Type 0} ⦃f : Float F⦄ (rec : Recommendation D F) (direction : Direction) where
  -- The two ends of the walk: no candle decides, or the first that does is the result.
  abbrev pub Decided : List (Candle F) → List (Candle F) → HitResult → Type 0
  Decided series fine r =
      (pre : List (Candle F)) × (c : Candle F) × (post : List (Candle F)) × (series
        ≡ pre ++ (c ∷ post))
      × All (λ x. touch rec direction x ≡ untouched) pre
      × (touch rec direction c ≢ untouched)
      × (verdict rec direction fine c ≡ some r)

  verdict-none :
      (fine : List (Candle F)) (c : Candle F)
      → verdict rec direction fine c ≡ none
      → touch rec direction c ≡ untouched
  unfolding verdict
  verdict-none fine c h = ground arith

  verdict-some :
      (fine : List (Candle F)) (c : Candle F) (r : HitResult)
      → verdict rec direction fine c ≡ some r
      → touch rec direction c ≢ untouched
  unfolding verdict
  verdict-some fine c r h u = ground arith

  detect_hits-skip :
      (fine : List (Candle F)) (c : Candle F) (cs : List (Candle F))
      → verdict rec direction fine c ≡ none
      → detect_hits rec direction (c ∷ cs) fine ≡ detect_hits rec direction cs fine
  unfolding detect_hits
  detect_hits-skip fine c cs h = ground arith

  detect_hits-stop :
      (fine : List (Candle F)) (c : Candle F) (cs : List (Candle F)) (r : HitResult)
      → verdict rec direction fine c ≡ some r
      → detect_hits rec direction (c ∷ cs) fine ≡ r
  unfolding detect_hits
  detect_hits-stop fine c cs r h = ground arith

  detect_hits-nil : (fine : List (Candle F)) → detect_hits rec direction [] fine ≡ no_hit
  unfolding detect_hits
  detect_hits-nil fine = refl

  -- The result of `detectHits` is that of the first candle that touches a level, and the empty one if
  -- no candle of the series touches one.
  pub detect_hits-split :
      (series fine : List (Candle F))
      → (All (λ x. touch rec direction x ≡ untouched) series
          × (detect_hits rec direction series fine ≡ no_hit))
        ⊎ Decided series fine (detect_hits rec direction series fine)
  detect_hits-split [] fine = inl (tt, detect_hits-nil fine)
  detect_hits-split (c ∷ cs) fine = elim (Option-cases (verdict rec direction fine c)) [
    | inr (r, e) ↦
        rw (detect_hits-stop fine c cs r e) (inr ([], c, cs, refl, tt, verdict-some fine c r e, e))
    | inl e ↦ rw (detect_hits-skip fine c cs e) (elim (detect_hits-split cs fine) [
      | inl (all, h) ↦ inl ((verdict-none fine c e, all), h)
      | inr (pre, x, post, same, all, t, v) ↦
          inr (c ∷ pre, x, post, rw same refl, (verdict-none fine c e, all), t, v)
    ])
  ]

  -- More candles of the fine series, none of them inside the conflicting one, change no resolution.
  resolve_with_finer-append :
      (fine more : List (Candle F)) (conflict : Candle F)
      → All (λ m. inside rec direction conflict m ≡ false) more
      → resolve_with_finer rec direction (fine ++ more) conflict
        ≡ resolve_with_finer rec direction fine conflict
  unfolding resolve_with_finer
  resolve_with_finer-append [] [] conflict h = refl
  resolve_with_finer-append [] (m ∷ more) conflict (h, hs) =
      ground (arith, resolve_with_finer-append [] more conflict hs)
  resolve_with_finer-append (c ∷ fine) more conflict h =
      ground (arith, resolve_with_finer-append fine more conflict h)

  verdict-append :
      (fine more : List (Candle F)) (c : Candle F)
      → All (λ m. inside rec direction c m ≡ false) more
      → verdict rec direction (fine ++ more) c ≡ verdict rec direction fine c
  unfolding verdict
  verdict-append fine more c h = ground (arith, resolve_with_finer-append fine more c h)

  -- A hit that is found is not changed by candles that arrive later: neither by more of the series, nor
  -- by more of the fine series, as long as these are outside the candles that were there.
  pub detect_hits-append :
      (series later fine more : List (Candle F))
      → All (λ c. All (λ m. inside rec direction c m ≡ false) more) series
      → detect_hits rec direction series fine ≢ no_hit
      → detect_hits rec direction (series ++ later) (fine ++ more)
        ≡ detect_hits rec direction series fine
  detect_hits-append [] later fine more h decided = elim (decided (detect_hits-nil fine)) [ ]
  detect_hits-append (c ∷ cs) later fine more (h, hs) decided =
      elim (Option-cases (verdict rec direction fine c)) [
        | inr (r, e) ↦
            detect_hits-stop (fine ++ more) c (cs ++ later) r (verdict-append fine more c h ∙ e)
            ∙ sym (detect_hits-stop fine c cs r e)
        | inl e ↦
            detect_hits-skip (fine ++ more) c (cs ++ later) (verdict-append fine more c h ∙ e)
            ∙ detect_hits-append cs later fine more hs
                (λ n. decided (detect_hits-skip fine c cs e ∙ n))
            ∙ sym (detect_hits-skip fine c cs e)
      ]
