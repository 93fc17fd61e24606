-- ===== src/Pnl/Close.antt =====
-- backend/internal/pnl/pnl.go: `ComputeClose` and `computeFee`.
use crypto_market_advisor.Base.{
  Bool, true, false, not, ◌&&◌, ◌||◌, if◌then◌else◌, Option, none, some,
}
use crypto_market_advisor.Numbers.Decimal.{
  Decimal, nought, hundred, greater_than, less_than, greater_than_or_equal, is_zero,
}
use crypto_market_advisor.Domain.Direction
use crypto_market_advisor.Domain.FeeType.{FeeType, maker}
use crypto_market_advisor.Domain.Position.{Position}
use crypto_market_advisor.Pnl.Compute.{or_nought, is_positive}

pub record CloseRequest (D F : Type 0) : Type 0 where
  pub position : Position D F
  pub execution_price : D
  pub close_pct : Option D
  pub quantity : Option D
  pub fee_type : FeeType
  pub actual_fee : Option D
  pub maker_fee_pct : D
  pub taker_fee_pct : D
  pub fees_configured : Bool

pub record CloseResult (D : Type 0) : Type 0 where
  pub quantity : D
  pub close_pct : D
  pub realized_pnl : D
  pub fee : D
  pub fee_estimated : Bool
  pub remaining : D
  pub fully_closed : Bool

abbrev pub is_maker : FeeType → Bool
is_maker maker = true
is_maker _ = false

module _ {D F : Type 0} ⦃d : Decimal D⦄ where
  -- The fee that is computed where the user entered none.
  unfoldable pub configured_fee : CloseRequest D F → D → D × Bool
  configured_fee req quantity =
      if not req.fees_configured
      then (nought, true)
      else let rate = if is_maker req.fee_type then req.maker_fee_pct else req.taker_fee_pct in
        (d.round 10 (d.div (d.mul (d.mul req.execution_price quantity) rate) hundred), true)

  -- The fee, and whether it was estimated.
  unfoldable pub compute_fee : CloseRequest D F → D → D × Bool
  unfolding configured_fee
  compute_fee req quantity = elim req.actual_fee [
    | some fee ↦ (fee, false)
    | none ↦ configured_fee req quantity
  ]

  -- The quantity and the percentage that the `switch` sets; `none` is ErrNoCloseSize.
  unfoldable pub close_size : CloseRequest D F → D → Option (D × D)
  close_size req remaining =
      if is_positive req.quantity
      then some (
        let wanted = or_nought req.quantity in
            if greater_than remaining nought && greater_than wanted remaining
            then remaining
            else wanted,
        nought,
      )
      else if is_positive req.close_pct
      then (let asked = or_nought req.close_pct in
          let pct = if greater_than asked hundred then hundred else asked in
          some (d.div (d.mul remaining pct) hundred, pct))
      else none

  -- What follows the `switch`.
  unfoldable pub close_result : CloseRequest D F → (remaining quantity pct : D) → CloseResult D
  unfolding Direction.sign compute_fee
  close_result req remaining quantity pct =
      let p = req.position in
      let held = greater_than remaining nought in
      let close_pct = if held then d.round 6 (d.mul (d.div quantity remaining) hundred) else pct in
      let rest = d.sub remaining quantity in
      let left = if held then (if less_than rest nought then nought else rest) else nought in
      let (fee, estimated) = compute_fee req quantity in
      record {
        quantity = quantity;
        close_pct = close_pct;
        realized_pnl = d.round 10 (
            d.mul (d.mul (d.sub req.execution_price p.entry_price) quantity)
              (d.of_int (Direction.sign p.direction)));
        fee = fee;
        fee_estimated = estimated;
        remaining = left;
        fully_closed =
            not p.size_known && greater_than_or_equal close_pct hundred || (held && is_zero left);
      }

  unfoldable pub compute_close : CloseRequest D F → Option (CloseResult D)
  unfolding close_size close_result
  compute_close req =
      let remaining = or_nought req.position.remaining_quantity in
      elim (close_size req remaining) [
        | none ↦ none
        | some (quantity, pct) ↦ some (close_result req remaining quantity pct)
      ]
