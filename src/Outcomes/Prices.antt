-- ===== src/Outcomes/Prices.antt =====
-- backend/internal/recommendations/outcomes.go: prices after a time, and excursions.
use crypto_market_advisor.Base.{
  ℕ, ◌+◌, Bool, true, not, if◌then◌else◌, Option, none, some, List, [], ◌∷◌, ltb, get_last?,
}
use crypto_market_advisor.Numbers.Float.{Float, int}
use crypto_market_advisor.Domain.Timeframe.{Time}
use crypto_market_advisor.Domain.Market.{Candle}
use crypto_market_advisor.Domain.Direction
use crypto_market_advisor.Domain.Direction.{Direction}

module _ {F : Type 0} where
  -- The loop of `priceAfter`.
  unfoldable pub first_close : Time → List (Candle F) → Option F
  first_close target [] = none
  first_close target (c ∷ cs) =
      let rest = first_close target cs in
      if not (ltb c.close_time target) then some c.close else rest

  -- The series ends before the target, or is empty.
  abbrev pub ends_before : Time → Option (Candle F) → Bool
  ends_before target none = true
  ends_before target (some c) = ltb c.close_time target

  unfoldable pub price_after : List (Candle F) → (created_at : Time) → (offset : ℕ) → Option F
  unfolding first_close
  price_after series created_at offset =
      let target = created_at + offset in
      if ends_before target (get_last? series) then none else first_close target series

module _ {F : Type 0} ⦃f : Float F⦄ where
  -- The loop of `excursions`, over mfe and mae.
  unfoldable pub excursion_loop : (reference sign : F) → F × F → List (Candle F) → F × F
  excursion_loop reference sign acc [] = acc
  excursion_loop reference sign (mfe, mae) (c ∷ cs) =
      let up = f.mul (f.mul (f.div (f.sub c.high reference) reference) (int 100)) sign in
      let down = f.mul (f.mul (f.div (f.sub c.low reference) reference) (int 100)) sign in
      excursion_loop reference sign (f.max mfe (f.max up down), f.min mae (f.min up down)) cs

  abbrev pub two_digits : F → F
  two_digits x = f.div (f.round (f.mul x (int 100))) (int 100)

  unfoldable pub excursions : List (Candle F) → F → Direction → F × F
  unfolding excursion_loop Direction.sign
  excursions series reference direction =
      if f.le reference (int 0)
      then (int 0, int 0)
      else let (mfe, mae) =
          excursion_loop reference (f.of_int (Direction.sign direction)) (int 0, int 0) series in
        (two_digits mfe, two_digits mae)
