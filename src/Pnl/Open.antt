-- ===== src/Pnl/Open.antt =====
-- backend/internal/pnl/pnl.go: `OpenFee` and `DeriveSize`.
use crypto_market_advisor.Base.{Bool, true, false, not, ◌||◌, if◌then◌else◌, Option, none, some}
use crypto_market_advisor.Numbers.Decimal.{Decimal, nought, hundred, less_than_or_equal, is_zero}
use crypto_market_advisor.Domain.FeeType.{FeeType}
use crypto_market_advisor.Pnl.Compute.{or_nought, is_positive}
use crypto_market_advisor.Pnl.Close.{is_maker}

pub record Size (D : Type 0) : Type 0 where
  pub quantity : D
  pub notional : D
  pub margin : D
  pub size_known : Bool

module _ {D : Type 0} ⦃d : Decimal D⦄ where
  unfoldable pub open_fee :
      (price quantity maker_pct taker_pct : D) → FeeType → Option D → Bool → D × Bool
  open_fee price quantity maker_pct taker_pct fee_type (some fee) configured = (fee, false)
  open_fee price quantity maker_pct taker_pct fee_type none configured =
      if not configured || is_zero quantity
      then (nought, true)
      else let rate = if is_maker fee_type then maker_pct else taker_pct in
        (d.round 10 (d.div (d.mul (d.mul price quantity) rate) hundred), true)

  abbrev pub unknown_size : Size D
  unknown_size = record {
    quantity = nought;
    notional = nought;
    margin = nought;
    size_known = false;
  }

  abbrev pub known_size : (q n m : D) → Size D
  known_size q n m = record {
    quantity = d.round 12 q;
    notional = d.round 10 n;
    margin = d.round 10 m;
    size_known = true;
  }

  unfoldable pub derive_size :
      (entry_price leverage : D) (quantity notional margin : Option D) → Size D
  derive_size entry_price leverage quantity notional margin =
      if less_than_or_equal entry_price nought || less_than_or_equal leverage nought
      then unknown_size
      else if is_positive quantity
      then (let q = or_nought quantity in
          let n = d.mul q entry_price in known_size q n (d.div n leverage))
      else if is_positive notional
      then (let n = or_nought notional in known_size (d.div n entry_price) n (d.div n leverage))
      else if is_positive margin
      then (let m = or_nought margin in
          let n = d.mul m leverage in known_size (d.div n entry_price) n m)
      else unknown_size
