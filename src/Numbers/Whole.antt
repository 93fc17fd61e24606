-- ===== src/Numbers/Whole.antt =====
-- Whole numbers as an instance of the decimals: the laws can be met, and the model runs on them.
use crypto_market_advisor.Base.{
  ℕ, zero, suc, ◌+◌, ◌*◌, ◌/◌, ◌≤◌, ◌<◌, ◌≡◌, refl, ap, arith, true, false,
}
use crypto_market_advisor.Base.Int.{
  ℤ, pos, negsuc, ◌+ℤ◌, ◌-ℤ◌, ◌*ℤ◌, quot_ℤ, ltb_ℤ, neg_ℕ, int_laws, +ℤ_parts,
}
use native.Mathlib.Nat.{mul-div_cancel, le-div_iff_mul-le, div-mul-le_self, le_trans, zero-div}
use crypto_market_advisor.Numbers.Decimal.{Decimal}
use crypto_market_advisor.Numbers.Laws.{IsDecimal}

instance abbrev pub whole : Decimal ℤ
whole = record {
  of_int = λ z. z;
  add = ◌+ℤ◌;
  sub = ◌-ℤ◌;
  mul = ◌*ℤ◌;
  div = quot_ℤ;
  round = λ k z. z;
  lt = ltb_ℤ;
  int_part = λ z. z;
  numeric = λ z. z;
}

lt_trans : (a b c : ℤ) → ltb_ℤ a b ≡ true → ltb_ℤ b c ≡ true → ltb_ℤ a c ≡ true
lt_trans a b c h k = ground arith

lt_total : (a b : ℤ) → ltb_ℤ b a ≡ false → ltb_ℤ a b ≡ false → a ≡ b
lt_total a b h k = ground arith

add_comm : (a b : ℤ) → a +ℤ b ≡ b +ℤ a
add_comm a b = omega int_laws

add_assoc : (a b c : ℤ) → a +ℤ b +ℤ c ≡ a +ℤ (b +ℤ c)
add_assoc a b c = omega int_laws

zero-add : (a : ℤ) → pos 0 +ℤ a ≡ a
zero-add a = omega int_laws

sub-add : (a b : ℤ) → a -ℤ b +ℤ b ≡ a
sub-add a b = omega int_laws

add_mono : (a b c : ℤ) → ltb_ℤ a b ≡ true → ltb_ℤ (a +ℤ c) (b +ℤ c) ≡ true
add_mono a b c h = ground (arith, +ℤ_parts a c, +ℤ_parts b c)

zero-mul : (a : ℤ) → pos 0 *ℤ a ≡ pos 0
unfolding ◌*ℤ◌
zero-mul a = ground arith

one-mul : (a : ℤ) → pos 1 *ℤ a ≡ a
unfolding ◌*ℤ◌
one-mul a = ground arith

mul_comm : (a b : ℤ) → a *ℤ b ≡ b *ℤ a
unfolding ◌*ℤ◌
mul_comm a b = ground arith

pub pos-mul : (x y : ℕ) → pos x *ℤ pos y ≡ pos (x * y)
unfolding ◌*ℤ◌
pos-mul x y = ground arith

mul-le_mul_right : (a b c : ℕ) → a ≤ b → a * c ≤ b * c
mul-le_mul_right a b c h = grind arith

neg-mul : (a c : ℕ) → neg_ℕ a *ℤ pos c ≡ neg_ℕ (a * c)
unfolding ◌*ℤ◌
neg-mul zero c = ground arith
neg-mul (suc a) zero = ground arith
neg-mul (suc a) (suc c) = rw (mul-suc-suc a c) (ground arith)
  where
    mul-suc-suc : (x y : ℕ) → suc x * suc y ≡ suc (x * y + x + y)
    mul-suc-suc x y = omega arith

neg-quot : (m c : ℕ) → quot_ℤ (neg_ℕ m) (pos c) ≡ neg_ℕ (m / c)
unfolding quot_ℤ
neg-quot zero c = rw zero-div
neg-quot (suc m) c = refl

pos-mul-div : (a c : ℕ) → 0 < c → quot_ℤ (pos a *ℤ pos c) (pos c) ≡ pos a
unfolding quot_ℤ
pos-mul-div a c h = rw (pos-mul a c) (ap pos (mul-div_cancel a h))

mul-div : (a c : ℤ) → ltb_ℤ (pos 0) c ≡ true → quot_ℤ (a *ℤ c) c ≡ a
mul-div (pos a) (pos c) h = pos-mul-div a c (ground arith)
mul-div (negsuc a) (pos c) h =
    rw (neg-mul (suc a) c, neg-quot (suc a * c) c, mul-div_cancel (suc a) {n = c} (ground arith))
mul-div a (negsuc c) h = ground arith

pub div-le-div : (a b c : ℕ) → 0 < c → a ≤ b → a / c ≤ b / c
div-le-div a b c h k = (le-div_iff_mul-le h).1 (le_trans (div-mul-le_self a c) k)

neg_mono : (a b : ℕ) → a ≤ b → ltb_ℤ (neg_ℕ a) (neg_ℕ b) ≡ false
neg_mono zero zero h = refl
neg_mono zero (suc b) h = ground arith
neg_mono (suc a) zero h = ground arith
neg_mono (suc a) (suc b) h = ground arith

neg-le-pos : (a b : ℕ) → ltb_ℤ (pos b) (neg_ℕ a) ≡ false
neg-le-pos zero b = ground arith
neg-le-pos (suc a) b = ground arith

mul_mono :
    (a b c : ℤ) → ltb_ℤ b a ≡ false → ltb_ℤ c (pos 0) ≡ false → ltb_ℤ (b *ℤ c) (a *ℤ c) ≡ false
mul_mono (pos a) (pos b) (pos c) h k =
    rw (pos-mul a c, pos-mul b c) (ground (arith, mul-le_mul_right a b c))
mul_mono (negsuc a) (pos b) (pos c) h k =
    rw (neg-mul (suc a) c, pos-mul b c) (neg-le-pos (suc a * c) (b * c))
mul_mono (negsuc a) (negsuc b) (pos c) h k =
    rw (neg-mul (suc a) c, neg-mul (suc b) c)
      (neg_mono (suc b * c) (suc a * c) (mul-le_mul_right (suc b) (suc a) c (ground arith)))
mul_mono (pos a) (negsuc b) (pos c) h k = ground arith
mul_mono a b (negsuc c) h k = ground arith

div_mono :
    (a b c : ℤ)
    → ltb_ℤ b a ≡ false
    → ltb_ℤ (pos 0) c ≡ true
    → ltb_ℤ (quot_ℤ b c) (quot_ℤ a c) ≡ false
unfolding quot_ℤ
div_mono (pos a) (pos b) (pos c) h k = ground (arith, div-le-div a b c)
div_mono (pos a) (negsuc b) (pos c) h k = ground arith
div_mono (negsuc a) (negsuc b) (pos c) h k =
    neg_mono (suc b / c) (suc a / c) (div-le-div (suc b) (suc a) c (ground arith) (ground arith))
div_mono (negsuc a) (pos b) (pos c) h k = neg-le-pos (suc a / c) (b / c)
div_mono a b (negsuc c) h k = ground arith

pub whole-IsDecimal : IsDecimal ℤ
whole-IsDecimal = record {
  lt_irrefl = λ a. ground arith;
  lt_trans = lt_trans;
  lt_total = lt_total;
  add_comm = add_comm;
  add_assoc = add_assoc;
  zero-add = zero-add;
  sub-add = sub-add;
  add_mono = add_mono;
  zero-mul = zero-mul;
  mul_comm = mul_comm;
  mul_mono = mul_mono;
  mul-div = λ a c f. mul-div a c;
  div_mono = div_mono;
  div-Fits = λ a b. refl;
  sub-Fits = λ a b f g. refl;
  round-Fits = λ k a h. refl;
  int-Fits = λ z. refl;
  zero-lt-hundred = refl;
  one-mul = one-mul;
  round_mono = λ k a b h. h;
  round-int = λ k z. refl;
  numeric-eq_of_Fits = λ a f. refl;
}
