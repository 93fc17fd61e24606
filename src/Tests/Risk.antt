-- ===== src/Tests/Risk.antt =====
-- The risk engine on concrete snapshots.
use crypto_market_advisor.Base.{◌≡◌, refl, ◌⊎◌, true, false, Option, none, some, [], ◌∷◌, arith}
use crypto_market_advisor.Base.Int.{ℤ, pos, ◌+ℤ◌, ◌-ℤ◌, ◌*ℤ◌, quot_ℤ, ◌≤ℤ◌}
use crypto_market_advisor.Numbers.Whole.{whole}
use crypto_market_advisor.Numbers.Order.{◌⊑◌}
use crypto_market_advisor.Numbers.Fixed.{
  Hundredths, hundredths, hundredths_conversion, hundredths-IsFloat,
}
use crypto_market_advisor.Domain.Timeframe.{Timeframe, tf1h, hour}
use crypto_market_advisor.Domain.RecommendationAction.{open_long, is_entry}
use crypto_market_advisor.Domain.RiskLevel.{low}
use crypto_market_advisor.Domain.Kinds.{strong_uptrend, ok}
use crypto_market_advisor.Risk.Input.{RiskConfig, Indicators, Input}
use crypto_market_advisor.Risk.Readings.{
  stop_distance_pct, has_fresh_critical, primary_atr_pct, has_high_volatility,
}
use crypto_market_advisor.Risk.NewsCap.{evaluate-news_cap}
use crypto_market_advisor.Risk.Engine.{evaluate}
use crypto_market_advisor.Risk.Range.{evaluate-range}
use crypto_market_advisor.Risk.StopLoss.{evaluate-stop_loss}

abbrev pub policy : RiskConfig ℤ Hundredths
policy = record {
  min_leverage = pos 2;
  max_leverage = pos 50;
  max_recommended_alloc_pct = pos 10;
  high_volatility_atr_pct = pos 300;
  extreme_volatility_atr_pct = pos 600;
  min_confidence = pos 50;
  risk_per_trade_pct = pos 100;
  critical_news_max_leverage = pos 10;
  critical_news_high_vol_max_leverage = pos 5;
  critical_news_max_age = hour;
}

abbrev pub calm : Timeframe → Option (Indicators Hundredths)
calm tf1h = some (record { atr_pct = some (pos 100); atr_percentile = none; vol_percentile = none })
calm _ = none

-- Buy at 100 with a stop at 95, five percent away: 35 / 5 allows seven times.
abbrev pub request : Input ℤ Hundredths
request = record {
  action = open_long;
  confidence = pos 80;
  llm_leverage = pos 20;
  llm_allocation = pos 5;
  llm_risk_level = low;
  reference_price = pos 10000;
  stop_loss = record { price = pos 9500; close_pct = pos 10000; reason = "" } ∷ [];
  snapshot = record {
    timeframes = calm;
    alignment_score = pos 80;
    regime = strong_uptrend;
    tags = [];
    volatility_risk = pos 0;
    key_levels = [];
    asset_news = [];
    global_news = [];
    data_quality = ok;
  };
}

request-leverage : (evaluate policy request).leverage.risk_maximum ≡ pos 7
unfolding evaluate ◌-ℤ◌ ◌*ℤ◌ ◌+ℤ◌ quot_ℤ
request-leverage = refl

request-distance : stop_distance_pct request ≡ some (pos 500)
unfolding stop_distance_pct ◌-ℤ◌ ◌*ℤ◌ ◌+ℤ◌ quot_ℤ
request-distance = refl

evaluate-stop_loss_example :
    let m = (evaluate policy request).leverage.risk_maximum in
    (m ≡ pos 2) ⊎ (hundredths.of_int m ⊑ hundredths.div (hundredths.of_int (pos 35)) (pos 500))
unfolding is_entry ◌*ℤ◌
evaluate-stop_loss_example =
    evaluate-stop_loss hundredths-IsFloat policy request (pos 500)
      (omega arith, omega arith, omega arith, omega arith) refl request-distance refl

evaluate-range_example :
    let a = evaluate policy request in
    ((is_entry open_long ≡ true)
      × (pos 2 ≤ℤ a.leverage.risk_maximum)
      × (a.leverage.risk_maximum ≤ℤ pos 50)
      × (pos 2 ≤ℤ a.leverage.recommended)
      × (a.leverage.recommended ≤ℤ a.leverage.risk_maximum))
    ⊎ ((is_entry open_long ≡ false)
        × (a.leverage.risk_maximum ≡ pos 0)
        × (a.leverage.recommended ≡ pos 0)
        × (a.allocation_pct ≡ pos 0))
evaluate-range_example = evaluate-range policy request (omega arith)

-- The same with a critical news item of five minutes ago.
abbrev alarming : Input ℤ Hundredths
alarming = record request {
  snapshot = record request.snapshot {
    global_news = record { critical = true; age_minutes = pos 5 } ∷ [];
  };
}

evaluate-news_cap_example :
    let m = (evaluate policy alarming).leverage.risk_maximum in
    (m ≡ pos 2) ⊎ (hundredths.of_int m ⊑ hundredths.of_int (pos 10))
unfolding is_entry has_fresh_critical primary_atr_pct has_high_volatility ◌*ℤ◌ quot_ℤ
evaluate-news_cap_example =
    evaluate-news_cap hundredths-IsFloat policy alarming
      (omega arith, omega arith, omega arith, omega arith) refl refl refl
