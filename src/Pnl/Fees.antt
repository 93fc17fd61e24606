-- ===== src/Pnl/Fees.antt =====
-- Fees are never invented: `computeFee` and `OpenFee`.
use crypto_market_advisor.Base.{◌≡◌, ◌↔◌, Bool, true, false, Option, none, some, arith}
use crypto_market_advisor.Numbers.Decimal.{Decimal, nought, is_zero}
use crypto_market_advisor.Domain.FeeType.{FeeType}
use crypto_market_advisor.Pnl.Close.{CloseRequest, compute_fee}
use crypto_market_advisor.Pnl.Open.{open_fee}

module _ {D F : Type 0} ⦃d : Decimal D⦄ where
  -- The fee of a close is marked as estimated exactly if the user entered none; a fee that is not
  -- marked is the user's; and with no rates configured an estimated fee is zero.
  pub compute_fee_honest :
      (req : CloseRequest D F) (quantity : D)
      → let (fee, estimated) = compute_fee req quantity in
        ((estimated ≡ true) ↔ (req.actual_fee ≡ none))
        × (estimated ≡ false → req.actual_fee ≡ some fee)
        × (req.fees_configured ≡ false → estimated ≡ true → fee ≡ nought)
  unfolding compute_fee
  compute_fee_honest req quantity = ground arith

module _ {D : Type 0} ⦃d : Decimal D⦄ where
  -- The fee of the opening fill is marked as estimated exactly if the user entered none; a fee that is
  -- not marked is the user's; and an estimated fee is zero with no rates configured, and for a
  -- quantity of zero.
  pub open_fee_honest :
      (price quantity maker taker : D) (fee_type : FeeType) (actual : Option D) (configured : Bool)
      → let (fee, estimated) = open_fee price quantity maker taker fee_type actual configured in
        ((estimated ≡ true) ↔ (actual ≡ none))
        × (estimated ≡ false → actual ≡ some fee)
        × (configured ≡ false → estimated ≡ true → fee ≡ nought)
        × (is_zero quantity ≡ true → estimated ≡ true → fee ≡ nought)
  unfolding open_fee
  open_fee_honest price quantity maker taker fee_type (some a) configured = ground arith
  open_fee_honest price quantity maker taker fee_type none configured = ground arith
