-- ===== src/Tests/Positions.antt =====
-- The positions service on concrete tables.
use crypto_market_advisor.Base.{ℕ, map, ◌≡◌, refl, ◌*◌, ◌==◌, true, false, none, some, [], ◌∷◌}
use crypto_market_advisor.Base.Int.{ℤ, pos, ◌+ℤ◌, ◌-ℤ◌, ◌*ℤ◌, quot_ℤ}
use crypto_market_advisor.Numbers.Whole.{whole, whole-IsDecimal}
use crypto_market_advisor.Numbers.Laws.{◌≺◌}
use crypto_market_advisor.Numbers.Fixed.{Hundredths, hundredths, hundredths_conversion}
use crypto_market_advisor.Domain.Timeframe.{hour}
use crypto_market_advisor.Pnl.Sums.{total, taken}
use crypto_market_advisor.Domain.Position.{Position}
use crypto_market_advisor.Pnl.{CloseResult, compute_close, derive_size}
use crypto_market_advisor.Positions.Store.{Session, ok}
use crypto_market_advisor.Positions.Repository.{
  apply_close, find_position, stored_fill, closing_update,
}
use crypto_market_advisor.Positions.Service.{CloseRequest, requested_size, open_position}
use crypto_market_advisor.Positions.Close.{
  settle, size_request, closing_fill, closed_position, record_close, close_position,
}
use crypto_market_advisor.Positions.Atomic.{Recorded, record_close-Recorded}
use crypto_market_advisor.Positions.Opening.{Opened, open_position-Opened}
use crypto_market_advisor.Positions.Ledger.{IsBooked, close-IsBooked}
use crypto_market_advisor.Positions.Books.Steps.{IsSoundStore}
use crypto_market_advisor.Positions.Books.Reach.{opens, closes, Reach, here, next, run-IsSound}
use crypto_market_advisor.Tests.Data.{
  ten_units, opening, fees_config, buy_ten, sell_four, fresh_session, fresh_store, holding,
}

-- The position is opened, but the INSERT of its event fails, and nothing is left.
open_position-failure :
    (open_position fees_config
      (5 * hour)
      1
      11
      buy_ten
      (record fresh_session { fails = λ n. n == 6 })).1.store
    ≡ fresh_store
unfolding open_position
open_position-failure = refl

abbrev opened_session : Session ℤ Hundredths
opened_session = (open_position fees_config (5 * hour) 1 11 buy_ten fresh_session).1

abbrev closed_session : Session ℤ Hundredths
closed_session = (close_position fees_config (6 * hour) 12 sell_four opened_session).1

buy_ten-positive : pos 0 ≺ (requested_size buy_ten).quantity
unfolding derive_size
buy_ten-positive = refl

abbrev both : Reach fresh_session closed_session
both =
    next (next here (opens fees_config (5 * hour) 1 11 buy_ten (λ h. buy_ten-positive) refl))
      (closes fees_config (6 * hour) 12 sell_four refl refl)

run-IsSound_example : IsSoundStore closed_session.store
run-IsSound_example = run-IsSound whole-IsDecimal refl refl both

sold-four :
    (find_position 1 closed_session.store.positions ≡ none → ⊥)
    × ((record_close {F = Hundredths} fees_config (6 * hour) 12 sell_four holding).0 ≡ ok ten_units)
unfolding close_position open_position ◌-ℤ◌ ◌*ℤ◌ quot_ℤ
sold-four = (λ h. cc, refl)

record_close-Recorded_example :
    Recorded fees_config
      (6 * hour)
      12
      sell_four
      holding.store
      (record_close fees_config (6 * hour) 12 sell_four holding).0
      (record_close fees_config (6 * hour) 12 sell_four holding).1.store
record_close-Recorded_example = record_close-Recorded fees_config (6 * hour) 12 sell_four holding

open_position-Opened_example :
    Opened fees_config
      (5 * hour)
      1
      11
      buy_ten
      fresh_session.upper
      fresh_store
      (open_position fees_config (5 * hour) 1 11 buy_ten fresh_session).0
      (open_position fees_config (5 * hour) 1 11 buy_ten fresh_session).1.store
open_position-Opened_example =
    open_position-Opened fees_config (5 * hour) 1 11 buy_ten fresh_session

abbrev four_of_ten : CloseResult ℤ
four_of_ten = record {
  quantity = pos 4;
  close_pct = pos 0;
  realized_pnl = pos 40;
  fee = pos 8;
  fee_estimated = true;
  remaining = pos 6;
  fully_closed = false;
}

four_of_ten-run : compute_close (size_request fees_config ten_units sell_four) ≡ some four_of_ten
unfolding compute_close ◌-ℤ◌ ◌*ℤ◌ quot_ℤ
four_of_ten-run = refl

ten_units-IsBooked : IsBooked ten_units (opening ∷ [])
unfolding ◌+ℤ◌
ten_units-IsBooked = record {
  initial = pos 10;
  left = pos 10;
  known = refl;
  initial_eq = refl;
  left_eq = refl;
  fits = refl;
  balance = refl;
  live = λ h. refl;
  spent = λ h. cc;
}

close-IsBooked_example :
    IsBooked
      (closing_update (closed_position ten_units sell_four four_of_ten (6 * hour)) ten_units)
      (opening ∷ stored_fill (closing_fill ten_units sell_four four_of_ten (6 * hour) 12) ∷ [])
close-IsBooked_example =
    close-IsBooked whole-IsDecimal fees_config ten_units sell_four (opening ∷ []) (6 * hour) 12
      ten_units-IsBooked refl refl four_of_ten-run

-- Two closes of six units that both read the ten units before either is written: both are written,
-- four units are left, and the fills took twelve.
abbrev sell_six : CloseRequest ℤ
sell_six = record sell_four { quantity = some (pos 6) }

abbrev six_of_ten : CloseResult ℤ
six_of_ten = record four_of_ten {
  quantity = pos 6;
  realized_pnl = pos 60;
  fee = pos 13;
  remaining = pos 4;
}

abbrev write_six : (id : ℕ) → Session ℤ Hundredths → Session ℤ Hundredths
write_six id s =
    let w = settle ten_units sell_six six_of_ten (6 * hour) id in
    (apply_close w.updated w.fill w.event_type w.payload s).1

interleaved-overdraws :
    let s = write_six 13 (write_six 12 holding) in
    (map (λ (p : Position ℤ Hundredths). p.remaining_quantity) s.store.positions
      ≡ some (pos 4) ∷ [])
    × (total taken s.store.fills ≡ pos 12)
unfolding settle apply_close ◌+ℤ◌
interleaved-overdraws = (refl, refl)
