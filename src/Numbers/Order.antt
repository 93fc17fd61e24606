-- ===== src/Numbers/Order.antt =====
-- What float64 promises about order, for values that are compared with zero first, so that no NaN
-- is among them; rounding is monotone in IEEE 754, and all laws hold there.
use crypto_market_advisor.Base.{ℕ, ◌≤◌, ◌<◌, ◌^◌, ◌≡◌, true, false}
use crypto_market_advisor.Base.Int.{ℤ, ◌≤ℤ◌}
use crypto_market_advisor.Numbers.Float.{Float, int}

module _ {F : Type 0} ⦃f : Float F⦄ where
  infix 50 ◌⊑◌
  abbrev pub ◌⊑◌ : F → F → Type 0
  a ⊑ b = f.le a b ≡ true

pub record IsFloat (F : Type 0) ⦃f : Float F⦄ : Type 0 where
  pub le_refl : (a : F) → int 0 ⊑ a → a ⊑ a
  pub le_trans : (a b c : F) → a ⊑ b → b ⊑ c → a ⊑ c
  pub le_of_lt : (a b : F) → f.lt a b ≡ true → a ⊑ b
  pub le_of_not_lt : (a b : F) → int 0 ⊑ a → int 0 ⊑ b → f.lt a b ≡ false → b ⊑ a
  pub min-le : (a b : F) → int 0 ⊑ a → int 0 ⊑ b → f.min a b ⊑ a
  pub min_nonneg : (a b : F) → int 0 ⊑ a → int 0 ⊑ b → int 0 ⊑ f.min a b
  pub max_nonneg : (a b : F) → int 0 ⊑ a → int 0 ⊑ b → int 0 ⊑ f.max a b
  -- A factor n / 10^k between 0 and 1, with one or two digits.
  pub scale-le :
      (a : F) (n k : ℕ) → int 0 ⊑ a → 0 < n → n ≤ 10 ^ k → k ≤ 2 → f.mul a (f.lit n k) ⊑ a
  pub scale_nonneg : (a : F) (n k : ℕ) → int 0 ⊑ a → 0 < n → k ≤ 2 → int 0 ⊑ f.mul a (f.lit n k)
  pub times_nonneg : (a : F) (n : ℕ) → int 0 ⊑ a → 0 < n → int 0 ⊑ f.mul a (int n)
  pub div_nonneg : (a : F) (n : ℕ) → 0 < n → f.lt (int 0) a ≡ true → int 0 ⊑ f.div (int n) a
  pub of_int_mono : (a b : ℤ) → a ≤ℤ b → f.of_int a ⊑ f.of_int b
  -- Of a value that an integer bounds, the whole part is at most the value.
  pub whole-le : (a : F) (m : ℤ) → int 0 ⊑ a → a ⊑ f.of_int m → f.of_int (f.to_int (f.floor a)) ⊑ a
