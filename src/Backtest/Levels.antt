-- ===== src/Backtest/Levels.antt =====
-- backend/internal/backtesting/engine.go: which price a candle reaches, and at which price an exit fills.
use crypto_market_advisor.Base.{
  ◌≡◌, refl, arith, Bool, true, false, not, ◌&&◌, ◌||◌, if◌then◌else◌, Option, none, some, List, [],
  ◌∷◌,
}
use crypto_market_advisor.Base.Int.{ℤ, pos, leb_ℤ}
use crypto_market_advisor.Numbers.Decimal.{Decimal, hundred}
use crypto_market_advisor.Numbers.Float.{Float, Conversion, int}
use crypto_market_advisor.Domain.Direction
use crypto_market_advisor.Domain.Direction.{Direction}
use crypto_market_advisor.Domain.FeeType.{FeeType}
use crypto_market_advisor.Domain.Market.{Candle}
use crypto_market_advisor.Domain.Plan.{PriceTarget}
use crypto_market_advisor.Pnl.{is_maker}
use crypto_market_advisor.Backtest.Params.{BacktestParams, OpenTrade, PnlExitStep}

abbrev pub is_nil {ℓ} : {A : Type ℓ} → List A → Bool
is_nil [] = true
is_nil (x ∷ xs) = false

pub is_nil→≡ {ℓ} : {A : Type ℓ} (xs : List A) → is_nil xs ≡ true → xs ≡ []
is_nil→≡ [] h = refl
is_nil→≡ (x ∷ xs) h = ground arith

module _ {F : Type 0} ⦃f : Float F⦄ where
  -- float64(direction.Sign())
  abbrev pub sign_of : Direction → F
  sign_of direction = f.of_int (Direction.sign direction)

  unfoldable pub price_touched : Candle F → F → Direction → (take_profit : Bool) → Bool
  unfolding Direction.is_long
  price_touched candle price direction take_profit =
      if Direction.is_long direction && take_profit
      then f.le price candle.high
      else if Direction.is_long direction
      then f.le candle.low price
      else if take_profit
      then f.le candle.low price
      else f.le price candle.high

  unfoldable pub any_target_touched :
      Candle F → List (PriceTarget F) → Direction → (take_profit : Bool) → Bool
  unfolding price_touched
  any_target_touched candle [] direction take_profit = false
  any_target_touched candle (level ∷ levels) direction take_profit =
      price_touched candle level.price direction take_profit
      || any_target_touched candle levels direction take_profit

  unfoldable pub stop_fill : F → Candle F → Direction → F
  unfolding Direction.is_long
  stop_fill level candle direction =
      if f.le candle.open_price (int 0)
      then level
      else if Direction.is_long direction
      then f.min level candle.open_price
      else f.max level candle.open_price

  -- `shiftTargets`
  unfoldable pub shift_targets : List (PriceTarget F) → F → List (PriceTarget F)
  shift_targets [] shift = []
  shift_targets (level ∷ levels) shift =
      let rest = shift_targets levels shift in
      let moved = f.add level.price shift in
      if f.lt (int 0) moved then record level { price = moved } ∷ rest else rest

  -- The loop of `ladderTargets`.
  unfoldable pub ladder_steps :
      List (PnlExitStep F)
      → F
      → (sign : F) → (leverage : ℤ) → (profit : Bool) → List (PriceTarget F)
  ladder_steps [] entry sign leverage profit = []
  ladder_steps (step ∷ steps) entry sign leverage profit =
      let rest = ladder_steps steps entry sign leverage profit in
      let move = f.div (f.div (f.abs step.pnl_pct) (f.of_int leverage)) (int 100) in
      let price = f.mul entry (f.add (int 1) (f.mul sign move)) in
      if f.le move (int 0) || (not profit && f.le (int 1) move) || f.le step.close_pct (int 0)
      then rest
      else if f.le price (int 0)
      then rest
      else record { price = price; close_pct = step.close_pct; reason = "" } ∷ rest

  unfoldable pub ladder_targets :
      List (PnlExitStep F) → F → Direction → (leverage : ℤ) → (profit : Bool) → List (PriceTarget F)
  unfolding ladder_steps Direction.sign
  ladder_targets steps entry direction leverage profit =
      if is_nil steps || leb_ℤ leverage (pos 0) || f.le entry (int 0)
      then []
      else ladder_steps steps entry
          (if profit then sign_of direction else f.neg (sign_of direction)) leverage profit

  -- `stopPrecedes`, over the stop levels that are left to look at.
  unfoldable pub precedes_in : List (PriceTarget F) → Direction → Candle F → F → Bool
  unfolding price_touched Direction.is_long Direction.is_short
  precedes_in [] direction candle price = false
  precedes_in (level ∷ levels) direction candle price =
      let rest = precedes_in levels direction candle price in
      if not (price_touched candle level.price direction false)
      then rest
      else if Direction.is_long direction && f.lt price level.price
      then true
      else if Direction.is_short direction && f.lt level.price price
      then true
      else rest

  -- A stop that closes everything at a level.
  abbrev pub to_level : F → List (PriceTarget F)
  to_level level = record { price = level; close_pct = int 100; reason = "" } ∷ []

  -- The stop of a long is moved only if that raises the first level, that of a short if it lowers it.
  abbrev pub raised : List (PriceTarget F) → F → List (PriceTarget F)
  raised [] level = to_level level
  raised (s ∷ ss) level = if f.lt s.price level then to_level level else s ∷ ss

  abbrev pub lowered : List (PriceTarget F) → F → List (PriceTarget F)
  lowered [] level = to_level level
  lowered (s ∷ ss) level = if f.lt level s.price then to_level level else s ∷ ss

module _ {D F : Type 0} ⦃f : Float F⦄ where
  unfoldable pub stop_precedes : OpenTrade D F → Candle F → F → Bool
  unfolding precedes_in
  stop_precedes o candle price = precedes_in o.stop_loss o.trade.direction candle price

  abbrev pub trail_up : OpenTrade D F → F → OpenTrade D F
  trail_up t peak = record t {
    peak = peak;
    stop_loss = raised t.stop_loss (f.sub peak t.trail_atr);
  }

  abbrev pub trail_down : OpenTrade D F → F → OpenTrade D F
  trail_down t peak = record t {
    peak = peak;
    stop_loss = lowered t.stop_loss (f.add peak t.trail_atr);
  }

  -- `trailStop`
  unfoldable pub trail_stop : OpenTrade D F → Candle F → OpenTrade D F
  unfolding Direction.is_long
  trail_stop o candle =
      if f.le o.trail_atr (int 0)
      then o
      else if Direction.is_long o.trade.direction
      then trail_up o (f.max o.peak candle.high)
      else trail_down o (f.min (if f.eq o.peak (int 0) then candle.low else o.peak) candle.low)

module _ {D F : Type 0} ⦃d : Decimal D⦄ where
  unfoldable pub fee_for : D → BacktestParams D F → FeeType → D
  fee_for notional params fee_type =
      d.div
        (d.mul notional (if is_maker fee_type then params.maker_fee_pct else params.taker_fee_pct))
        hundred

module _ {D F : Type 0} ⦃f : Float F⦄ ⦃c : Conversion D F⦄ where
  unfoldable pub liquidation_fill : OpenTrade D F → Candle F → F → F
  unfolding stop_fill Direction.is_long
  liquidation_fill o candle liquidation =
      let fill = stop_fill liquidation candle o.trade.direction in
      let leverage = c.to_float o.trade.leverage in
      if f.le leverage (int 0)
      then fill
      else if Direction.is_long o.trade.direction
      then f.max fill (f.mul o.entry_price (f.sub (int 1) (f.div (int 1) leverage)))
      else f.min fill (f.mul o.entry_price (f.add (int 1) (f.div (int 1) leverage)))

  -- `liquidationPrice`; `none` is its `false`.
  unfoldable pub liquidation_price : OpenTrade D F → BacktestParams D F → Option F
  unfolding Direction.is_long
  liquidation_price o params =
      let leverage = c.to_float o.trade.leverage in
      let raw =
        f.sub (f.div (int 1) leverage)
          (f.div (c.to_float params.maintenance_margin_pct) (int 100)) in
      let distance = if f.lt raw (int 0) then int 0 else raw in
      if f.le leverage (int 0)
      then none
      else if Direction.is_long o.trade.direction
      then some (f.mul o.entry_price (f.sub (int 1) distance))
      else some (f.mul o.entry_price (f.add (int 1) distance))

  -- `roundTripCost`
  unfoldable pub round_trip_cost : BacktestParams D F → F
  round_trip_cost params =
      let taker = c.to_float params.taker_fee_pct in
      let maker = c.to_float params.maker_fee_pct in
      let exit = if f.lt (int 0) maker && f.lt maker taker then maker else taker in
      f.add (f.add taker exit) (f.mul (int 2) (c.to_float params.slippage_pct))
