-- ===== src/Backtest/Counts.antt =====
-- backend/internal/backtesting/metrics.go: the counts of the summary add up.
use crypto_market_advisor.Base.{ℕ, ◌+◌, ◌≤◌, ◌≡◌, List, [], ◌∷◌, length, select}
use crypto_market_advisor.Numbers.Decimal.{Decimal, nought}
use crypto_market_advisor.Numbers.Float.{Float, int}
use crypto_market_advisor.Backtest.Params.{BacktestTrade}
use crypto_market_advisor.Backtest.Metrics.{round2, Tally}

module _ {D F : Type 0} ⦃d : Decimal D⦄ ⦃f : Float F⦄ where
  -- The counts after n trades.
  pub record CountsUp (n : ℕ) (a : Tally D F) : Type 0 where
    pub by_side : a.long_trades + a.short_trades ≡ n
    pub wins_by_side : a.long_wins + a.short_wins ≡ a.wins
    pub by_result : a.wins + a.losses ≤ n
    pub long_part : a.long_wins ≤ a.long_trades
    pub short_part : a.short_wins ≤ a.short_trades
    pub each_return : length a.returns ≡ n

-- Sums and averages of the trades, as the summary means them.
module _ {D F : Type 0} ⦃f : Float F⦄ where
  -- The returns, added up from the first on.
  unfoldable pub added_returns : F → List (BacktestTrade D F) → F
  added_returns acc [] = acc
  added_returns acc (t ∷ ts) = added_returns (f.add acc t.pnl_pct) ts

  -- The average return of n trades, rounded; without trades it is 0.
  unfoldable pub mean_return : List (BacktestTrade D F) → F
  unfolding added_returns round2
  mean_return [] = int 0
  mean_return (t ∷ ts) = round2 (f.div (added_returns (int 0) (t ∷ ts)) (int (length (t ∷ ts))))

module _ {D F : Type 0} ⦃d : Decimal D⦄ where
  -- The trades that brought something, and those that cost something.
  unfoldable pub won : List (BacktestTrade D F) → ℕ
  won ts = length (select (λ (t : BacktestTrade D F). d.lt nought t.net_pnl) ts)

  unfoldable pub lost : List (BacktestTrade D F) → ℕ
  lost ts = length (select (λ (t : BacktestTrade D F). d.lt t.net_pnl nought) ts)
