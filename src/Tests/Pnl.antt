-- ===== src/Tests/Pnl.antt =====
-- Profit and loss at concrete positions.
use mathlib.Core.List.{Permᴰ}
use crypto_market_advisor.Base.{◌≡◌, refl, ◌↔◌, true, false, Option, none, some, [], ◌∷◌}
use crypto_market_advisor.Base.Int.{ℤ, pos, ◌+ℤ◌, ◌-ℤ◌, ◌*ℤ◌, quot_ℤ}
use crypto_market_advisor.Numbers.Laws.{◌≼◌}
use crypto_market_advisor.Numbers.Whole.{whole, whole-IsDecimal}
use crypto_market_advisor.Numbers.Fixed.{Hundredths}
use crypto_market_advisor.Domain.FeeType.{taker}
use crypto_market_advisor.Numbers.Decimal.{is_zero}
use crypto_market_advisor.Pnl.{
  open_fee, CloseRequest, CloseResult, Inputs, compute, compute_close, compute_fee, derive_size,
}
use crypto_market_advisor.Pnl.Bounds.{
  HasSize, compute_close-none_iff, compute_close_bounds, compute_close-full_iff,
}
use crypto_market_advisor.Pnl.Sums.{total, gain, fee_of, amount_of, net_realized_lem}
use crypto_market_advisor.Pnl.Order.{compute-perm}
use crypto_market_advisor.Pnl.Fees.{compute_fee_honest, open_fee_honest}
use crypto_market_advisor.Pnl.Sizes.{IsKept, derive_size-IsKept}
use crypto_market_advisor.Tests.Data.{ten_units, opening, sale, funding_paid}

-- Closing 40 units of ten: the quantity is capped.
abbrev close_forty : CloseRequest ℤ Hundredths
close_forty = record {
  position = ten_units;
  execution_price = pos 110;
  close_pct = none;
  quantity = some (pos 40);
  fee_type = taker;
  actual_fee = none;
  maker_fee_pct = pos 1;
  taker_fee_pct = pos 2;
  fees_configured = true;
}

abbrev all_closed : CloseResult ℤ
all_closed = record {
  quantity = pos 10;
  close_pct = pos 100;
  realized_pnl = pos 100;
  fee = pos 22;
  fee_estimated = true;
  remaining = pos 0;
  fully_closed = true;
}

close_forty-run : compute_close close_forty ≡ some all_closed
unfolding compute_close ◌*ℤ◌ ◌-ℤ◌ quot_ℤ
close_forty-run = refl

compute_close_bounds_example :
    (pos 0 ≼ pos 10)
    × (pos 10 ≼ pos 10)
    × (pos 0 ≼ pos 0)
    × (pos 0 +ℤ pos 10 ≡ pos 10)
    × (pos 0 ≼ pos 100)
    × (pos 100 ≼ pos 100)
compute_close_bounds_example =
    compute_close_bounds whole-IsDecimal close_forty (pos 10) refl refl refl close_forty-run

compute_close-full_iff_example : (true ≡ true) ↔ (pos 10 ≡ pos 10)
compute_close-full_iff_example =
    compute_close-full_iff whole-IsDecimal close_forty (pos 10) refl refl refl refl close_forty-run

compute_close-none_iff_example : (compute_close close_forty ≡ none) ↔ (¬ HasSize close_forty)
compute_close-none_iff_example = compute_close-none_iff close_forty

abbrev history : Inputs ℤ Hundredths
history = record {
  position = ten_units;
  fills = opening ∷ sale ∷ [];
  fees = [];
  funding = funding_paid ∷ [];
  current_price = some (pos 120);
  fees_configured = true;
}

net_realized_lem_example :
    (compute history).net_realized
    ≡ (total gain history.fills -ℤ (total fee_of history.fills +ℤ total amount_of history.fees))
      +ℤ total amount_of history.funding
net_realized_lem_example = net_realized_lem whole-IsDecimal history

compute-perm_example : compute (record history { fills = sale ∷ opening ∷ [] }) ≡ compute history
compute-perm_example =
    compute-perm whole-IsDecimal history (sale ∷ opening ∷ []) [] (funding_paid ∷ [])
      (Permᴰ.swap refl refl) Permᴰ.nil (Permᴰ.cons refl Permᴰ.nil)

abbrev no_fee : Option ℤ
no_fee = none

compute_fee_honest_example :
    let (fee, estimated) = compute_fee close_forty (pos 10) in
    ((estimated ≡ true) ↔ (no_fee ≡ none))
    × (estimated ≡ false → no_fee ≡ some fee)
    × (true ≡ false → estimated ≡ true → fee ≡ pos 0)
compute_fee_honest_example = compute_fee_honest close_forty (pos 10)

open_fee_honest_example :
    let (fee, estimated) = open_fee (pos 100) (pos 0) (pos 1) (pos 2) taker no_fee true in
    ((estimated ≡ true) ↔ (no_fee ≡ none))
    × (estimated ≡ false → no_fee ≡ some fee)
    × (true ≡ false → estimated ≡ true → fee ≡ pos 0)
    × (is_zero (pos 0) ≡ true → estimated ≡ true → fee ≡ pos 0)
open_fee_honest_example = open_fee_honest (pos 100) (pos 0) (pos 1) (pos 2) taker no_fee true

derive_size-IsKept_example : IsKept (derive_size (pos 100) (pos 5) none (some (pos 1000)) none)
derive_size-IsKept_example =
    derive_size-IsKept whole-IsDecimal (pos 100) (pos 5) none (some (pos 1000)) none
