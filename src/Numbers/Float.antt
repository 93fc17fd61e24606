-- ===== src/Numbers/Float.antt =====
-- float64 and the functions of package math, and the conversions between float64 and decimals.
-- Floats are a parameter: the model runs with any type that has these operations.
use crypto_market_advisor.Base.{ℕ, Bool, not, ◌&&◌}
use crypto_market_advisor.Base.Int.{ℤ, pos}

pub record Float (F : Type 0) : Type 0 where
  -- float64(n) of an integer
  pub of_int : ℤ → F
  -- The literal n / 10^k.
  pub lit : ℕ → ℕ → F
  pub add : F → F → F
  pub sub : F → F → F
  pub mul : F → F → F
  pub div : F → F → F
  -- `<`, `<=` and `==`, false at NaN
  pub lt : F → F → Bool
  pub le : F → F → Bool
  pub eq : F → F → Bool
  -- unary minus
  pub neg : F → F
  pub abs : F → F
  pub max : F → F → F
  pub min : F → F → F
  pub round : F → F
  -- int(x)
  pub to_int : F → ℤ
  pub floor : F → F
  pub is_nan : F → Bool
  pub is_inf : F → Bool
  -- math.Inf(1)
  pub infinity : F
  -- math.NaN()
  pub nan : F
  pub sqrt : F → F
  -- math.Log
  pub log : F → F

module _ {F : Type 0} ⦃f : Float F⦄ where
  abbrev pub int : ℕ → F
  int n = f.of_int (pos n)

  -- `Valid` of package indicators and `finite` of package llm.
  abbrev pub is_finite : F → Bool
  is_finite x = not (f.is_nan x) && not (f.is_inf x)

pub record Conversion (D F : Type 0) : Type 0 where
  -- InexactFloat64
  pub to_float : D → F
  -- decimal.NewFromFloat
  pub to_decimal : F → D
