-- ===== src/Outcomes/Hits.antt =====
-- backend/internal/recommendations/outcomes.go: which level a series of candles reached first.
use crypto_market_advisor.Base.{
  ℕ, suc, String, Bool, true, false, not, ◌&&◌, ◌||◌, if◌then◌else◌, Option, none, some, List, [],
  ◌∷◌, ltb,
}
use crypto_market_advisor.Numbers.Float.{Float}
use crypto_market_advisor.Domain.Market.{Candle}
use crypto_market_advisor.Domain.Plan.{PriceTarget}
use crypto_market_advisor.Domain.Direction
use crypto_market_advisor.Domain.Direction.{Direction}
use crypto_market_advisor.Domain.Recommendation.{Recommendation}

pub record HitResult : Type 0 where
  pub tp_index : Option ℕ
  pub sl_index : Option ℕ
  pub is_ambiguous : Bool
  pub reason : String

abbrev pub no_hit : HitResult
no_hit = record { tp_index = none; sl_index = none; is_ambiguous = false; reason = "" }

abbrev pub tp_hit_at : ℕ → HitResult
tp_hit_at i = record { tp_index = some i; sl_index = none; is_ambiguous = false; reason = "" }

abbrev pub sl_hit_at : ℕ → HitResult
sl_hit_at j = record { tp_index = none; sl_index = some j; is_ambiguous = false; reason = "" }

abbrev pub unresolved : ℕ → ℕ → HitResult
unresolved i j = record {
  tp_index = some i;
  sl_index = some j;
  is_ambiguous = true;
  reason =
      "take profit and stop loss were both touched inside one candle and no finer data resolves the order";
}

-- What is decided by the levels that a candle touched, take profit first.
pub data Touch : Type 0 where
  untouched : Touch
  only_tp : ℕ → Touch
  only_sl : ℕ → Touch
  both : ℕ → ℕ → Touch

abbrev pub touch_of : Option ℕ → Option ℕ → Touch
touch_of none none = untouched
touch_of (some i) none = only_tp i
touch_of none (some j) = only_sl j
touch_of (some i) (some j) = both i j

module _ {F : Type 0} ⦃f : Float F⦄ where
  -- The `switch` of `firstTouched`.
  unfoldable pub touched : Candle F → PriceTarget F → Direction → Bool → Bool
  unfolding Direction.is_long Direction.is_short
  touched candle level direction is_take_profit =
      if Direction.is_long direction && is_take_profit
      then f.le level.price candle.high
      else if Direction.is_long direction && not is_take_profit
      then f.le candle.low level.price
      else if Direction.is_short direction && is_take_profit
      then f.le candle.low level.price
      else f.le level.price candle.high

  -- The loop of `firstTouched`, from index i on.
  unfoldable pub first_touched_from :
      ℕ → Candle F → List (PriceTarget F) → Direction → Bool → Option ℕ
  unfolding touched
  first_touched_from i candle [] direction is_take_profit = none
  first_touched_from i candle (level ∷ levels) direction is_take_profit =
      let rest = first_touched_from (suc i) candle levels direction is_take_profit in
      if touched candle level direction is_take_profit then some i else rest

  unfoldable pub first_touched : Candle F → List (PriceTarget F) → Direction → Bool → Option ℕ
  unfolding first_touched_from
  first_touched candle levels direction is_take_profit =
      first_touched_from 0 candle levels direction is_take_profit

  module _ {D : Type 0} (rec : Recommendation D F) (direction : Direction) where
    -- Which levels of the recommendation a candle touches.
    unfoldable pub touch : Candle F → Touch
    unfolding first_touched
    touch candle =
        touch_of (first_touched candle rec.take_profit direction true)
          (first_touched candle rec.stop_loss direction false)

    -- The candle opens inside the conflicting one.
    abbrev pub inside : Candle F → Candle F → Bool
    inside conflict c =
        not (ltb c.open_time conflict.open_time || not (ltb c.open_time conflict.close_time))

    -- `resolveWithFiner`; `none` is its `false`.
    unfoldable pub resolve_with_finer : List (Candle F) → Candle F → Option HitResult
    unfolding touch
    resolve_with_finer [] conflict = none
    resolve_with_finer (c ∷ cs) conflict =
        let rest = resolve_with_finer cs conflict in
        if inside conflict c
        then elim (touch c) [
          | untouched ↦ rest
          | only_tp i ↦ some (tp_hit_at i)
          | only_sl j ↦ some (sl_hit_at j)
          | both i j ↦ none
        ]
        else rest

    -- What `detectHits` returns at a candle, or that it goes on.
    unfoldable pub verdict : List (Candle F) → Candle F → Option HitResult
    unfolding touch resolve_with_finer
    verdict fine c = elim (touch c) [
      | untouched ↦ none
      | only_tp i ↦ some (tp_hit_at i)
      | only_sl j ↦ some (sl_hit_at j)
      | both i j ↦ elim (resolve_with_finer fine c) [
        | some r ↦ some r
        | none ↦ some (unresolved i j)
      ]
    ]

    unfoldable pub detect_hits : List (Candle F) → List (Candle F) → HitResult
    unfolding verdict
    detect_hits [] fine = no_hit
    detect_hits (c ∷ cs) fine =
        let rest = detect_hits cs fine in elim (verdict fine c) [ some r ↦ r | none ↦ rest ]
