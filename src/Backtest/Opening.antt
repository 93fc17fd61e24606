-- ===== src/Backtest/Opening.antt =====
-- backend/internal/backtesting/engine.go: `openTradeAt` charges the entry exactly when it opens a position.
use crypto_market_advisor.Base.{
  ◌≡◌, refl, inl, inr, Bool-cases, if◌then◌else◌, Option, none, some, List,
}
use crypto_market_advisor.Numbers.Decimal.{
  Decimal, nought, hundred, greater_than, less_than_or_equal,
}
use crypto_market_advisor.Numbers.Laws.{◌≼◌, ◌≺◌}
use crypto_market_advisor.Numbers.Float.{Float, Conversion, int}
use crypto_market_advisor.Domain.FeeType.{FeeType}
use crypto_market_advisor.Domain.Market.{Candle}
use crypto_market_advisor.Backtest.Params.{BacktestParams, OpenTrade, SignalResult}
use crypto_market_advisor.Backtest.Levels.{fee_for}
use crypto_market_advisor.Backtest.State.{SimState, equity, available_margin}
use crypto_market_advisor.Backtest.Entries.{Exits, exits_of, new_trade, open_sized, open_trade_at}

module _ {D F : Type 0} ⦃d : Decimal D⦄ where
  -- What an attempt to open leaves: the state as it was, or a fresh position whose margin and fee were
  -- free, with the fee paid.
  abbrev pub Attempt :
      SimState D F → List (OpenTrade D F) → Option (OpenTrade D F) × SimState D F → Type 0
  Attempt s positions (none, t) = t ≡ s
  Attempt s positions (some o, t) =
      (t ≡ record s { cash = d.sub s.cash o.fees })
      × (o.gross_pnl ≡ nought)
      × (o.funding ≡ nought)
      × (o.exited_qty ≡ nought)
      × (o.remaining_qty ≡ o.original_qty)
      × (nought ≺ o.original_qty)
      × (d.add o.initial_margin o.fees ≼ available_margin s positions)

module _ {D F : Type 0} ⦃d : Decimal D⦄ ⦃f : Float F⦄ ⦃c : Conversion D F⦄
    (signal : SignalResult D F) (entry : F) (fee_type : FeeType) (candle : Candle F)
    (params : BacktestParams D F) (s : SimState D F) (positions : List (OpenTrade D F)) where
  open_sized-Attempt :
      (margin notional quantity : D)
      → nought ≺ quantity
      → Attempt s positions
          (open_sized signal entry fee_type candle params s positions margin notional quantity)
  unfolding open_sized
  open_sized-Attempt margin notional quantity positive = by_exits (exits_of signal entry params)
    where
      fee : D
      fee = fee_for notional params fee_type

      by_exits :
          (x : Option (Exits F))
          → Attempt s positions (elim x [
            | none ↦ (none, s)
            | some exits ↦
                if greater_than (d.add margin fee) (available_margin s positions)
                then (none, s)
                else (
                  some (new_trade signal entry fee_type candle margin quantity fee exits),
                  record s { cash = d.sub s.cash fee },
                )
          ])
      by_exits none = refl
      by_exits (some exits) =
          elim (Bool-cases (greater_than (d.add margin fee) (available_margin s positions))) [
            | inl e ↦ rw e refl
            | inr e ↦ rw e (refl, refl, refl, refl, refl, positive, e)
          ]

  -- An entry that is refused, at whatever test, costs nothing. An entry that is made takes its fee from the
  -- cash and changes nothing else in the state; it starts with all of its quantity left, a positive one,
  -- and its margin and its fee together are at most the margin that was available.
  pub open_trade_at-Attempt :
      Attempt s positions (open_trade_at signal entry fee_type candle params s positions)
  unfolding open_trade_at
  open_trade_at-Attempt = elim (Bool-cases (f.le entry (int 0))) [
    | inl e ↦ rw e refl
    | inr e ↦ elim (Bool-cases (less_than_or_equal signal.allocation_pct nought)) [
      | inl a ↦ rw (e, a) refl
      | inr a ↦ elim (Bool-cases (d.lt nought quantity)) [
        | inl q ↦ rw (e, a, q) (open_sized-Attempt margin notional quantity q)
        | inr q ↦ rw (e, a, q) refl
      ]
    ]
  ]
    where
      margin : D
      margin = d.div (d.mul (equity s) signal.allocation_pct) hundred

      notional : D
      notional = d.mul margin (d.of_int signal.leverage)

      quantity : D
      quantity = d.div notional (c.to_decimal entry)
