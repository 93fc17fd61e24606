-- ===== src/Pnl/Sizes.antt =====
-- The size of a new position: `DeriveSize`.
use crypto_market_advisor.Base.{Option, arith, if_elim}
use crypto_market_advisor.Base.Int.{pos}
use crypto_market_advisor.Numbers.Decimal.{Decimal}
use crypto_market_advisor.Numbers.Laws.{IsDecimal, Fits}
use crypto_market_advisor.Pnl.Compute.{is_positive, or_nought}
use crypto_market_advisor.Pnl.Open.{Size, derive_size, unknown_size, known_size}

module _ {D : Type 0} ⦃d : Decimal D⦄ where
  -- All three numbers have at most 16 fractional digits.
  pub record IsKept (s : Size D) : Type 0 where
    pub quantity_fits : Fits s.quantity
    pub notional_fits : Fits s.notional
    pub margin_fits : Fits s.margin

  module _ (laws : IsDecimal D) where
    known_size-IsKept : (q n m : D) → IsKept (known_size q n m)
    known_size-IsKept q n m = record {
      quantity_fits = laws.round-Fits 12 q (omega arith);
      notional_fits = laws.round-Fits 10 n (omega arith);
      margin_fits = laws.round-Fits 10 m (omega arith);
    }

    unknown_size-IsKept : IsKept unknown_size
    unknown_size-IsKept = record {
      quantity_fits = laws.int-Fits (pos 0);
      notional_fits = laws.int-Fits (pos 0);
      margin_fits = laws.int-Fits (pos 0);
    }

  -- Quantity, notional and margin of a derived size have at most 16 fractional digits, whichever of the
  -- three was given and however many digits it has.
  pub derive_size-IsKept :
      IsDecimal D
      → (price leverage : D) (quantity notional margin : Option D)
      → IsKept (derive_size price leverage quantity notional margin)
  unfolding derive_size
  derive_size-IsKept laws price leverage quantity notional margin =
      if_elim IsKept _ (unknown_size-IsKept laws) (
        if_elim IsKept (is_positive quantity)
          (known_size-IsKept laws q (d.mul q price) (d.div (d.mul q price) leverage))
          (if_elim IsKept (is_positive notional)
            (known_size-IsKept laws (d.div n price) n (d.div n leverage))
            (if_elim IsKept (is_positive margin)
              (known_size-IsKept laws (d.div (d.mul m leverage) price) (d.mul m leverage) m)
              (unknown_size-IsKept laws))))
    where
      q : D
      q = or_nought quantity

      n : D
      n = or_nought notional

      m : D
      m = or_nought margin
