-- ===== src/Tests/Llm.antt =====
-- The validation of concrete levels, and timeframes at a concrete time.
use mathlib.Core.List.{Permᴰ}
use crypto_market_advisor.Base.{
  ℕ, ◌≡◌, refl, ◌≤◌, String, false, Option, none, some, List, [], ◌∷◌, length, All, arith,
}
use crypto_market_advisor.Base.Int.{pos, ◌+ℤ◌, ◌-ℤ◌, ◌*ℤ◌, quot_ℤ}
use crypto_market_advisor.Numbers.Fixed.{Hundredths, hundredths}
use crypto_market_advisor.Domain.Direction.{long}
use crypto_market_advisor.Domain.Plan.{PriceTarget}
use crypto_market_advisor.Numbers.Rounding.{hundredths-IsRounding}
use crypto_market_advisor.Domain.RecommendationAction.{open_long, is_entry}
use crypto_market_advisor.Llm.Numbers.{validate_confidence, validate_leverage}
use crypto_market_advisor.Llm.Ranges.{
  InRangeOrNone, validate_confidence-range, validate_leverage-range,
}
use crypto_market_advisor.Llm.Entry.{no_levels, exceeds, validate_entry_action}
use crypto_market_advisor.Llm.Accepted.{nearer_bound, validate_entry_action-IsLevel}
use crypto_market_advisor.Llm.Problems.{
  EntryJson, stop_loss, take_profit, ValidationContext, TargetJson,
}
use crypto_market_advisor.Llm.Targets.{sort_targets, validate_targets}
use crypto_market_advisor.Llm.Levels.{IsLevel, validate_targets-IsLevel}
use crypto_market_advisor.Llm.Complete.{AllOrNone, validate_targets-AllOrNone}
use crypto_market_advisor.Llm.Sorted.{IsAsymmetric, IsOrdered, sort_targets-IsOrdered}

abbrev context : ValidationContext Hundredths
context = record {
  reference_price = pos 10000;
  min_leverage = pos 2;
  max_leverage = pos 50;
  close_tolerance_pct = pos 500;
}

abbrev json : (price close_pct : ℕ) → TargetJson Hundredths
json price close_pct = record {
  price = some (pos price);
  close_pct = some (pos close_pct);
  reason = "";
}

abbrev keep : String → String
keep s = s

-- Two targets of a long position at 100, the further one first.
abbrev answer : List (TargetJson Hundredths)
answer = json 12000 6000 ∷ json 11000 4000 ∷ []

abbrev checked : List (PriceTarget Hundredths)
checked =
    record { price = pos 11000; close_pct = pos 4000; reason = "" }
    ∷ record { price = pos 12000; close_pct = pos 6000; reason = "" }
    ∷ []

answer-run : validate_targets keep take_profit long (pos 10000) context answer ≡ (checked, [])
unfolding validate_targets ◌+ℤ◌ ◌-ℤ◌ ◌*ℤ◌ quot_ℤ
answer-run = refl

validate_targets-IsLevel_example :
    All
      (IsLevel keep take_profit long (pos 10000))
      (validate_targets keep take_profit long (pos 10000) context answer).0
validate_targets-IsLevel_example =
    validate_targets-IsLevel keep take_profit long (pos 10000) context answer

validate_targets-AllOrNone_example :
    AllOrNone keep take_profit long
      (pos 10000)
      2
      (validate_targets keep take_profit long (pos 10000) context answer)
    × (length (validate_targets keep take_profit long (pos 10000) context answer).0 ≤ 6)
validate_targets-AllOrNone_example =
    validate_targets-AllOrNone keep take_profit long (pos 10000) context answer

hundredths-IsAsymmetric : IsAsymmetric hundredths
hundredths-IsAsymmetric a b h = ground arith

sort_targets-IsOrdered_example :
    IsOrdered long take_profit (sort_targets long take_profit checked)
    × Permᴰ (sort_targets long take_profit checked) checked
sort_targets-IsOrdered_example =
    sort_targets-IsOrdered hundredths-IsAsymmetric long take_profit checked

validate_confidence-range_example :
    InRangeOrNone (pos 0) (pos 100) (validate_confidence (some (pos 7260)))
validate_confidence-range_example =
    validate_confidence-range hundredths-IsRounding (some (pos 7260))

confidence-run : validate_confidence (some (pos 7260)) ≡ (pos 73, none)
unfolding validate_confidence ◌*ℤ◌ ◌+ℤ◌ quot_ℤ
confidence-run = refl

validate_leverage-range_example :
    InRangeOrNone (pos 2) (pos 50) (validate_leverage (some (pos 1240)) open_long context)
unfolding is_entry ◌*ℤ◌ quot_ℤ
validate_leverage-range_example =
    validate_leverage-range hundredths-IsRounding (some (pos 1240)) open_long context refl refl refl

abbrev stop_at_95 : List (TargetJson Hundredths)
stop_at_95 = json 9500 10000 ∷ []

-- An entry zone between 99 and 101, so that the targets are compared with 101.
abbrev zone : Option (EntryJson Hundredths)
zone =
    some
      (record { type = "zone"; preferred_min = some (pos 9900); preferred_max = some (pos 10100) })

accepted : (validate_entry_action keep keep zone answer stop_at_95 context long).problems ≡ []
unfolding validate_entry_action ◌+ℤ◌ ◌-ℤ◌ ◌*ℤ◌ quot_ℤ
accepted = refl

validate_entry_action-IsLevel_example :
    let r = validate_entry_action keep keep zone answer stop_at_95 context long in
    let reference = nearer_bound r.entry long context.reference_price in
    (no_levels r.targets ≡ false)
    × (no_levels r.stops ≡ false)
    × All (IsLevel keep take_profit long reference) r.targets
    × All (IsLevel keep stop_loss long reference) r.stops
    × (exceeds r.entry.preferred_min r.entry.preferred_max ≡ false)
validate_entry_action-IsLevel_example =
    validate_entry_action-IsLevel keep keep zone answer stop_at_95 context long accepted
