-- ===== src/Numbers/Decimal.antt =====
-- Values of decimal.Decimal (github.com/shopspring/decimal), a package that the program calls.
-- A value stands for its number: 1.0 and 1.00, which `Cmp` calls equal, are one value.
use crypto_market_advisor.Base.{Bool, not, ◌&&◌, ℕ}
use crypto_market_advisor.Base.Int.{ℤ, pos}

-- The operations that the program calls. `lt` is `LessThan`; the other comparisons follow below.
pub record Decimal (D : Type 0) : Type 0 where
  -- decimal.NewFromInt
  pub of_int : ℤ → D
  pub add : D → D → D
  pub sub : D → D → D
  pub mul : D → D → D
  -- `Div`, which keeps 16 fractional digits (decimal.DivisionPrecision)
  pub div : D → D → D
  pub round : ℕ → D → D
  pub lt : D → D → Bool
  -- `IntPart`, the whole part
  pub int_part : D → ℤ
  -- What a NUMERIC(38,18) column gives back for a value that was written to it.
  pub numeric : D → D

module _ {D : Type 0} ⦃d : Decimal D⦄ where
  abbrev pub nought : D
  nought = d.of_int (pos 0)

  abbrev pub hundred : D
  hundred = d.of_int (pos 100)

  abbrev pub less_than : D → D → Bool
  less_than a b = d.lt a b

  abbrev pub greater_than : D → D → Bool
  greater_than a b = d.lt b a

  abbrev pub less_than_or_equal : D → D → Bool
  less_than_or_equal a b = not (d.lt b a)

  abbrev pub greater_than_or_equal : D → D → Bool
  greater_than_or_equal a b = not (d.lt a b)

  abbrev pub is_zero : D → Bool
  is_zero a = not (d.lt a nought) && not (d.lt nought a)
