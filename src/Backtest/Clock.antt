-- ===== src/Backtest/Clock.antt =====
-- backend/internal/backtesting/engine.go: the clock of the funding settlements.
use crypto_market_advisor.Base.{
  ℕ, zero, suc, ◌+◌, ◌-◌, ◌*◌, ◌/◌, ◌%◌, ◌≤◌, ◌<◌, ◌≡◌, inl, inr, ltb→lt, Option, arith, ltb, Bool,
  not, ◌||◌, ◌&&◌, ◌⊎◌, if◌then◌else◌, refl, sym, ap, ◌∙◌, true, false,
}
use crypto_market_advisor.Base.Int.{ℤ, pos, negsuc, ◌-ℤ◌}
use crypto_market_advisor.Numbers.Decimal.{Decimal, nought, hundred, is_zero, greater_than}
use crypto_market_advisor.Numbers.Laws.{IsDecimal}
use crypto_market_advisor.Domain.Direction
use crypto_market_advisor.Domain.Direction.{Direction, long, short, other}
use crypto_market_advisor.Numbers.Float.{Float, Conversion}
use crypto_market_advisor.Domain.Timeframe.{Time, hour}
use crypto_market_advisor.Domain.Market.{Candle}
use crypto_market_advisor.Backtest.Params.{BacktestParams, BacktestTrade, OpenTrade}
use crypto_market_advisor.Backtest.State.{SimState}
use crypto_market_advisor.Backtest.Exits.{
  settle_funding, funding_rounds, apply_funding, rate_at, funding_amount,
}
use crypto_market_advisor.Backtest.Entries.{next_funding_after}

-- The first settlement after a moment is later than it, at most eight hours later, and on the clock of
-- eight hours from the start of the day (UTC).
pub next_funding_after_lem :
    (at : Time)
    → (at < next_funding_after at)
      × (next_funding_after at ≤ at + 8 * hour)
      × (next_funding_after at % (8 * hour) ≡ 0)
unfolding next_funding_after
next_funding_after_lem at = ground arith

-- A test, with what it says in each case.
if_cases :
    {A : Type 0} (P : A → Type 0) (b : Bool) {x y : A}
    → (b ≡ true → P x)
    → (b ≡ false → P y)
    → P (if b then x else y)
if_cases P true h k = h refl
if_cases P false h k = k refl

-- The part of a position that pays: a long pays what a short receives.
unfoldable pub side : Direction → ℤ
side long = negsuc 0
side short = pos 1
side (other t) = negsuc 0

side_lem : (t : Direction) → pos 0 -ℤ Direction.sign t ≡ side t
unfolding side Direction.sign ◌-ℤ◌
side_lem long = refl
side_lem short = refl
side_lem (other t) = refl

module _ {D F : Type 0} ⦃d : Decimal D⦄ ⦃f : Float F⦄ ⦃c : Conversion D F⦄ (candle : Candle F)
    (params : BacktestParams D F) (funding : ℕ → Option F) where
  -- What a settlement at a time charges, of the quantity that is left: nothing at a rate of zero.
  unfoldable pub charge : (quantity : D) → Direction → Time → D
  unfolding side
  charge quantity direction at =
      let rate = rate_at params funding at in
      let value = d.mul (c.to_decimal candle.open_price) quantity in
      if is_zero rate || not (greater_than quantity nought)
      then nought
      else d.mul (d.div (d.mul value rate) hundred) (d.of_int (side direction))

  -- The charges of n settlements, eight hours apart, the first one at a time.
  unfoldable pub charges : (quantity : D) → Direction → ℕ → Time → D
  unfolding charge
  charges quantity direction zero at = nought
  charges quantity direction (suc n) at =
      d.add (charge quantity direction at) (charges quantity direction n (at + 8 * hour))

  -- A number of settlements has been made: all that are due by the close of the candle and no other, and
  -- each moved its charge into the trade and the cash.
  pub record IsSettled (o : OpenTrade D F) (s : SimState D F) (r : OpenTrade D F × SimState D F)
      : Type 0 where
    pub settlements : ℕ
    pub next : r.0.next_funding_at ≡ o.next_funding_at + settlements * (8 * hour)
    pub none_left : candle.close_time < r.0.next_funding_at
    pub all_due :
        (settlements ≡ 0)
        ⊎ (o.next_funding_at + settlements * (8 * hour) ≤ candle.close_time + 8 * hour)
    pub booked :
        r.0.funding
        ≡ d.add o.funding (charges o.remaining_qty o.trade.direction settlements o.next_funding_at)
    pub paid :
        r.1.cash
        ≡ d.add s.cash (charges o.remaining_qty o.trade.direction settlements o.next_funding_at)

  -- What one round does that charges an amount.
  record IsRound (o : OpenTrade D F) (s : SimState D F) (r : OpenTrade D F × SimState D F) (x : D)
      : Type 0 where
    later : r.0.next_funding_at ≡ o.next_funding_at + 8 * hour
    book : r.0.funding ≡ d.add o.funding x
    pay : r.1.cash ≡ d.add s.cash x
    same_quantity : r.0.remaining_qty ≡ o.remaining_qty
    same_trade : r.0.trade ≡ o.trade

  either_round :
      {R : Type 0} (P : R → D → Type 0) (z g : Bool) {r r' : R} {x : D}
      → P r x
      → P r' nought
      → P (if not z && g then r else r') (if z || not g then nought else x)
  either_round P true g h k = k
  either_round P false true h k = h
  either_round P false false h k = k

  add-nought : IsDecimal D → (a : D) → a ≡ d.add a nought
  add-nought laws a = sym (laws.add_comm a nought ∙ laws.zero-add a)

  settle_funding-IsRound :
      IsDecimal D
      → (o : OpenTrade D F) (s : SimState D F)
      → IsRound o s
          (settle_funding candle params funding o s)
          (charge o.remaining_qty o.trade.direction o.next_funding_at)
  unfolding settle_funding charge funding_amount
  settle_funding-IsRound laws o s =
      let part = side_lem o.trade.direction in
      either_round (IsRound o s) (is_zero (rate_at params funding o.next_funding_at))
        (greater_than o.remaining_qty nought)
        (record {
          later = refl;
          book =
              ap
                (λ z. d.add o.funding (
                  d.mul
                    (d.div
                      (d.mul (d.mul (c.to_decimal candle.open_price) o.remaining_qty)
                        (rate_at params funding o.next_funding_at))
                      hundred)
                    (d.of_int z)))
                part;
          pay =
              ap
                (λ z. d.add s.cash (
                  d.mul
                    (d.div
                      (d.mul (d.mul (c.to_decimal candle.open_price) o.remaining_qty)
                        (rate_at params funding o.next_funding_at))
                      hundred)
                    (d.of_int z)))
                part;
          same_quantity = refl;
          same_trade = refl;
        })
        (record {
          later = refl;
          book = add-nought laws o.funding;
          pay = add-nought laws s.cash;
          same_quantity = refl;
          same_trade = refl;
        })

  no_round :
      IsDecimal D
      → (o : OpenTrade D F) (s : SimState D F) → candle.close_time < o.next_funding_at
      → IsSettled o s (o, s)
  unfolding charges
  no_round laws o s h = record {
    settlements = 0;
    next = omega arith;
    none_left = h;
    all_due = inl refl;
    booked = add-nought laws o.funding;
    paid = add-nought laws s.cash;
  }

  one_more :
      IsDecimal D
      → (o : OpenTrade D F) (s : SimState D F) (r r' : OpenTrade D F × SimState D F)
      → o.next_funding_at ≤ candle.close_time
      → IsRound o s r (charge o.remaining_qty o.trade.direction o.next_funding_at)
      → IsSettled r.0 r.1 r'
      → IsSettled o s r'
  unfolding charges
  one_more laws o s r r' due first rest = record {
    settlements = suc rest.settlements;
    next = omega (arith, rest.next, first.later);
    none_left = rest.none_left;
    all_due = inr (ground (arith, rest.all_due, first.later));
    booked = rest.booked ∙ chain o.funding r.0.funding _ first.book;
    paid = rest.paid ∙ chain s.cash r.1.cash _ first.pay;
  }
    where
      due_later : D
      due_later =
          charges o.remaining_qty o.trade.direction rest.settlements (o.next_funding_at + 8 * hour)

      others :
          charges r.0.remaining_qty r.0.trade.direction rest.settlements r.0.next_funding_at
          ≡ due_later
      others =
          ap (λ q. charges q r.0.trade.direction rest.settlements r.0.next_funding_at)
            first.same_quantity
          ∙ ap
              (λ (t : BacktestTrade D F).
                charges o.remaining_qty t.direction rest.settlements r.0.next_funding_at)
              first.same_trade
          ∙ ap (charges o.remaining_qty o.trade.direction rest.settlements) first.later

      chain :
          (a b x : D)
          → b ≡ d.add a x
          → d.add b
              (charges r.0.remaining_qty r.0.trade.direction rest.settlements r.0.next_funding_at)
            ≡ d.add a (d.add x due_later)
      chain a b x h =
          ap (d.add b) others ∙ ap (λ y. d.add y due_later) h ∙ laws.add_assoc a x due_later

  rounds-IsSettled :
      IsDecimal D
      → (n : ℕ) (o : OpenTrade D F) (s : SimState D F)
      → candle.close_time < o.next_funding_at + n * (8 * hour)
      → IsSettled o s (funding_rounds n candle params funding o s)
  unfolding funding_rounds
  rounds-IsSettled laws zero o s h = no_round laws o s (omega arith)
  rounds-IsSettled laws (suc n) o s h =
      let r = settle_funding candle params funding o s in
      let round = settle_funding-IsRound laws o s in
      if_cases (IsSettled o s) (ltb candle.close_time o.next_funding_at)
        (λ e. no_round laws o s (ltb→lt _ _ e))
        (λ e.
          one_more laws o s r _ (ground (arith, e)) round
            (rounds-IsSettled laws n r.0 r.1 (omega (arith, round.later, h))))

  -- The loop that settles funding ends, and settles what is due: with the number of rounds that the model
  -- allows it has made every settlement until the close of the candle and none after it, and each has
  -- moved its charge, of the quantity that is left at the rate of its time, into the funding of the trade and into the
  -- cash. A long pays a positive rate and a short receives it. The values of `decimal` are assumed to obey its laws.
  pub apply_funding-IsSettled :
      IsDecimal D
      → (o : OpenTrade D F) (s : SimState D F)
      → IsSettled o s (apply_funding candle params funding o s)
  unfolding apply_funding
  apply_funding-IsSettled laws o s =
      rounds-IsSettled laws (suc ((candle.close_time - o.next_funding_at) / (8 * hour))) o s
        (omega arith)
