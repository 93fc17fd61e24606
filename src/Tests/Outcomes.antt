-- ===== src/Tests/Outcomes.antt =====
-- Outcomes of concrete recommendations.
use crypto_market_advisor.Base.{
  ◌≡◌, refl, ◌⊎◌, ◌*◌, ◌+◌, true, false, none, some, List, [], ◌∷◌, ◌++◌, All, get_last?, arith,
}
use crypto_market_advisor.Base.Int.{pos, ◌+ℤ◌, ◌-ℤ◌, ◌*ℤ◌, quot_ℤ}
use crypto_market_advisor.Numbers.Fixed.{Hundredths, hundredths, hundredths_conversion}
use crypto_market_advisor.Domain.Timeframe.{minute}
use crypto_market_advisor.Domain.Direction.{long}
use crypto_market_advisor.Domain.Market.{Candle}
use crypto_market_advisor.Domain.Recommendation.{Outcome}
use crypto_market_advisor.Domain.Kinds.{tp_hit}
use crypto_market_advisor.Outcomes.Hits.{no_hit, tp_hit_at, touch, untouched, detect_hits}
use crypto_market_advisor.Outcomes.Prices.{ends_before, price_after}
use crypto_market_advisor.Outcomes.Evaluate.{evaluate_one, is_old}
use crypto_market_advisor.Outcomes.Walk.{Decided, detect_hits-split, detect_hits-append}
use crypto_market_advisor.Outcomes.Consistency.{Says, evaluate_one-Says}
use crypto_market_advisor.Outcomes.Later.{FirstFrom, price_after-cases, price_after-append}
use crypto_market_advisor.Tests.Data.{bar, advice}

-- A quiet minute, then one that reaches the target, then one that falls through the stop.
abbrev climb : List (Candle Hundredths)
climb = bar 1 9900 10100 10000 ∷ bar 2 10000 11200 11100 ∷ []

abbrev fall : Candle Hundredths
fall = bar 3 9000 11000 9100

climb-target : detect_hits advice long climb [] ≡ tp_hit_at 0
unfolding detect_hits
climb-target = refl

detect_hits-append_example :
    detect_hits advice long (climb ++ fall ∷ []) (fall ∷ []) ≡ detect_hits advice long climb []
unfolding detect_hits
detect_hits-append_example =
    detect_hits-append advice long climb (fall ∷ []) [] (fall ∷ []) ((refl, tt), ((refl, tt), tt))
      (λ h. cc)

detect_hits-split_example :
    (All (λ x. touch advice long x ≡ untouched) climb × (detect_hits advice long climb [] ≡ no_hit))
    ⊎ Decided advice long climb [] (detect_hits advice long climb [])
detect_hits-split_example = detect_hits-split advice long climb []

-- A candle in which both levels are touched, with no finer data.
wide-ambiguous : (detect_hits advice long (bar 1 9000 12000 10000 ∷ []) []).is_ambiguous ≡ true
unfolding detect_hits
wide-ambiguous = refl

-- With the minute in which the stop was reached first, it is resolved.
wide-resolved :
    (detect_hits advice long (bar 1 9000 12000 10000 ∷ []) (bar 1 9000 10000 9500 ∷ [])).sl_index
    ≡ some 0
unfolding detect_hits
wide-resolved = refl

climb-won :
    ((o : Outcome Hundredths) × (evaluate_one (4 * minute) advice climb [] ≡ some o)
      × (o.status ≡ tp_hit))
unfolding evaluate_one ◌-ℤ◌ ◌*ℤ◌ ◌+ℤ◌ quot_ℤ
climb-won = (_, refl, refl)

evaluate_one-Says_example : Says climb-won.0.status (is_old advice (4 * minute)) climb-won.0
evaluate_one-Says_example = evaluate_one-Says (4 * minute) advice climb [] climb-won.0 climb-won.1

climb-price : price_after climb 0 (3 * minute) ≡ some (pos 11100)
unfolding price_after
climb-price = refl

price_after-append_example : price_after (climb ++ fall ∷ []) 0 (3 * minute) ≡ some (pos 11100)
price_after-append_example =
    price_after-append climb (fall ∷ []) 0 (3 * minute) (pos 11100) (omega arith, tt) climb-price

price_after-cases_example :
    (ends_before (0 + 3 * minute) (get_last? climb) ≡ true)
      × (price_after climb 0 (3 * minute) ≡ none)
    ⊎ (ends_before (0 + 3 * minute) (get_last? climb) ≡ false)
      × ((p : Hundredths) × (price_after climb 0 (3 * minute) ≡ some p)
          × FirstFrom (0 + 3 * minute) climb p)
price_after-cases_example = price_after-cases climb 0 (3 * minute)
