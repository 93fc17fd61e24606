-- ===== src/Numbers/Fixed.antt =====
-- Hundredths as an instance of the floats, for the witnesses and the tests: an integer z stands for
-- z / 100, products and quotients drop what is below, there is no NaN and no infinity, and the root and
-- the logarithm, which no test needs, are left at the argument.
use crypto_market_advisor.Base.{
  ℕ, zero, suc, ◌*◌, ◌/◌, ◌^◌, ◌≤◌, ◌≡◌, subst, arith, true, false, ◌&&◌, if◌then◌else◌,
}
use crypto_market_advisor.Base.Int.{ℤ, pos, negsuc, ◌+ℤ◌, ◌-ℤ◌, ◌*ℤ◌, quot_ℤ, ltb_ℤ, leb_ℤ, ◌≤ℤ◌}
use crypto_market_advisor.Numbers.Float.{Float, Conversion}
use native.Mathlib.Nat.{mul-div_cancel}
use crypto_market_advisor.Numbers.Whole.{div-le-div, pos-mul}
use crypto_market_advisor.Numbers.Order.{IsFloat}

abbrev pub Hundredths : Type 0
Hundredths = ℤ

abbrev pub floor_div : ℤ → ℤ
floor_div (pos n) = pos (n / 100)
floor_div (negsuc n) = negsuc (n / 100)

instance abbrev pub hundredths : Float Hundredths
hundredths = record {
  of_int = λ z. z *ℤ pos 100;
  lit = λ n k. pos (n * 100 / 10 ^ k);
  add = ◌+ℤ◌;
  sub = ◌-ℤ◌;
  mul = λ a b. quot_ℤ (a *ℤ b) (pos 100);
  div = λ a b. quot_ℤ (a *ℤ pos 100) b;
  lt = ltb_ℤ;
  le = leb_ℤ;
  eq = λ a b. leb_ℤ a b && leb_ℤ b a;
  neg = λ a. pos 0 -ℤ a;
  abs = λ a. if ltb_ℤ a (pos 0) then pos 0 -ℤ a else a;
  max = λ a b. if ltb_ℤ a b then b else a;
  min = λ a b. if ltb_ℤ b a then b else a;
  round = λ a. floor_div (a +ℤ pos 50) *ℤ pos 100;
  to_int = λ a. quot_ℤ a (pos 100);
  floor = λ a. floor_div a *ℤ pos 100;
  is_nan = λ a. false;
  is_inf = λ a. false;
  infinity = pos 1_000_000_000_000;
  nan = pos 0;
  sqrt = λ a. a;
  log = λ a. a;
}

instance abbrev pub hundredths_conversion : Conversion ℤ Hundredths
hundredths_conversion = record {
  to_float = λ z. z *ℤ pos 100;
  to_decimal = λ a. quot_ℤ a (pos 100);
}

share-le : (x y : ℕ) → y ≤ 100 → x * y / 100 ≤ x
share-le x y h =
    subst (λ z. x * y / 100 ≤ z) (mul-div_cancel x (omega arith))
      (div-le-div (x * y) (x * 100) 100 (omega arith) (grind arith))

scale-le_hundred : (n k : ℕ) → n ≤ 10 ^ k → k ≤ 2 → n * 100 / 10 ^ k ≤ 100
scale-le_hundred n zero h small = omega (arith, h)
scale-le_hundred n (suc zero) h small = omega (arith, h)
scale-le_hundred n (suc (suc zero)) h small = omega (arith, h)
scale-le_hundred n (suc (suc (suc k))) h small = ground arith

pos-times : (x y : ℕ) → quot_ℤ (pos x *ℤ pos y) (pos 100) ≡ pos (x * y / 100)
unfolding quot_ℤ ◌*ℤ◌
pos-times x y = ground arith

scale-le :
    (a : ℤ) (n k : ℕ)
    → leb_ℤ (pos 0) a ≡ true
    → n ≤ 10 ^ k
    → k ≤ 2
    → leb_ℤ (quot_ℤ (a *ℤ pos (n * 100 / 10 ^ k)) (pos 100)) a ≡ true
scale-le (pos x) n k h m small =
    rw (pos-times x (n * 100 / 10 ^ k))
      (ground (arith, share-le x (n * 100 / 10 ^ k) (scale-le_hundred n k m small)))
scale-le (negsuc x) n k h m small = ground arith

times_nonneg :
    (a : ℤ) (y : ℕ) → leb_ℤ (pos 0) a ≡ true → leb_ℤ (pos 0) (quot_ℤ (a *ℤ pos y) (pos 100)) ≡ true
times_nonneg (pos x) y h = rw (pos-times x y) (ground arith)
times_nonneg (negsuc x) y h = ground arith

div_nonneg :
    (a : ℤ) (n : ℕ)
    → ltb_ℤ (pos 0) a ≡ true
    → leb_ℤ (pos 0) (quot_ℤ (pos n *ℤ pos 100 *ℤ pos 100) a) ≡ true
unfolding quot_ℤ
div_nonneg (pos c) n h = rw (pos-mul n 100, pos-mul (n * 100) 100) (ground arith)
div_nonneg (negsuc c) n h = ground arith

pub of_int_mono : (a b : ℤ) → a ≤ℤ b → leb_ℤ (a *ℤ pos 100) (b *ℤ pos 100) ≡ true
unfolding ◌*ℤ◌
of_int_mono a b h = ground arith

whole-le :
    (a : ℤ)
    → leb_ℤ (pos 0) a ≡ true
    → leb_ℤ (quot_ℤ (floor_div a *ℤ pos 100) (pos 100) *ℤ pos 100) a ≡ true
unfolding quot_ℤ
whole-le (pos x) h = rw (pos-mul (x / 100) 100, pos-mul (x / 100 * 100 / 100) 100) (ground arith)
whole-le (negsuc x) h = ground arith

pub hundredths-IsFloat : IsFloat Hundredths
unfolding ◌*ℤ◌
hundredths-IsFloat = record {
  le_refl = λ a h. ground arith;
  le_trans = λ a b c h k. ground arith;
  le_of_lt = λ a b h. ground arith;
  le_of_not_lt = λ a b h k n. ground arith;
  min-le = λ a b h k. ground arith;
  min_nonneg = λ a b h k. ground arith;
  max_nonneg = λ a b h k. ground arith;
  scale-le = λ a n k h _ m small. scale-le a n k h m small;
  scale_nonneg = λ a n k h _ small. times_nonneg a (n * 100 / 10 ^ k) h;
  times_nonneg = λ a n h _. rw (pos-mul n 100) (times_nonneg a (n * 100) h);
  div_nonneg = λ a n _ h. div_nonneg a n h;
  of_int_mono = of_int_mono;
  whole-le = λ a m h _. whole-le a h;
}
