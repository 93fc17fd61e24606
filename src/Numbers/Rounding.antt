-- ===== src/Numbers/Rounding.antt =====
-- What the program relies on of math.Round, of int(x) and of comparisons with whole numbers, and that
-- hundredths have it.
use crypto_market_advisor.Base.{ℕ, ◌≤◌, ◌≡◌, ap, true, false, arith}
use crypto_market_advisor.Base.Int.{ℤ, pos, ◌+ℤ◌, ◌*ℤ◌, ◌≤ℤ◌, quot_ℤ, leb_ℤ, +ℤ_parts}
use crypto_market_advisor.Numbers.Float.{Float, int, is_finite}
use crypto_market_advisor.Numbers.Order.{◌⊑◌}
use crypto_market_advisor.Numbers.Fixed.{Hundredths, hundredths, floor_div, of_int_mono}

pub record IsRounding (F : Type 0) ⦃f : Float F⦄ : Type 0 where
  -- A finite value is not NaN, so that `<` and `<=` are opposites.
  pub int-le : (z : ℤ) (a : F) → is_finite a ≡ true → f.lt a (f.of_int z) ≡ false → f.of_int z ⊑ a
  pub le-int : (a : F) (z : ℤ) → is_finite a ≡ true → f.lt (f.of_int z) a ≡ false → a ⊑ f.of_int z
  -- Rounding is monotone and keeps whole numbers.
  pub round_mono : (a b : F) → a ⊑ b → f.round a ⊑ f.round b
  pub round-int : (z : ℤ) → f.round (f.of_int z) ≡ f.of_int z
  -- int(x) stays within bounds that float64 represents.
  pub to_int_range :
      (low high : ℤ) (a : F)
      → f.to_int (f.of_int low) ≡ low
      → f.to_int (f.of_int high) ≡ high
      → f.of_int low ⊑ a
      → a ⊑ f.of_int high
      → (low ≤ℤ f.to_int a) × (f.to_int a ≤ℤ high)
  pub to_int-int : (n : ℕ) → n ≤ 1000 → f.to_int (int n) ≡ pos n

floor_div_mono : (a b : ℤ) → leb_ℤ a b ≡ true → floor_div a ≤ℤ floor_div b
floor_div_mono a b h = ground arith

round_mono :
    (a b : ℤ)
    → leb_ℤ a b ≡ true
    → leb_ℤ (floor_div (a +ℤ pos 50) *ℤ pos 100) (floor_div (b +ℤ pos 50) *ℤ pos 100) ≡ true
round_mono a b h = of_int_mono (floor_div (a +ℤ pos 50)) (floor_div (b +ℤ pos 50)) (
    floor_div_mono (a +ℤ pos 50) (b +ℤ pos 50)
      (ground (arith, +ℤ_parts a (pos 50), +ℤ_parts b (pos 50))))

whole-round : (z : ℤ) → floor_div (z *ℤ pos 100 +ℤ pos 50) ≡ z
unfolding ◌*ℤ◌ ◌+ℤ◌
whole-round z = ground arith

to_int_range :
    (low high a : ℤ)
    → leb_ℤ (low *ℤ pos 100) a ≡ true
    → leb_ℤ a (high *ℤ pos 100) ≡ true
    → (low ≤ℤ quot_ℤ a (pos 100)) × (quot_ℤ a (pos 100) ≤ℤ high)
unfolding ◌*ℤ◌ quot_ℤ
to_int_range low high a h k = ground arith

to_int-int : (n : ℕ) → quot_ℤ (pos n *ℤ pos 100) (pos 100) ≡ pos n
unfolding ◌*ℤ◌ quot_ℤ
to_int-int n = ground arith

pub hundredths-IsRounding : IsRounding Hundredths
hundredths-IsRounding = record {
  int-le = λ z a _ h. ground arith;
  le-int = λ a z _ h. ground arith;
  round_mono = round_mono;
  round-int = λ z. ap (λ x. x *ℤ pos 100) (whole-round z);
  to_int_range = λ low high a _ _ h k. to_int_range low high a h k;
  to_int-int = λ n _. to_int-int n;
}
