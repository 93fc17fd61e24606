-- ===== src/Numbers/Laws.antt =====
-- What the program relies on of decimal.Decimal and of a NUMERIC(38,18) column.
use crypto_market_advisor.Base.{
  ℕ, ◌≤◌, ◌≡◌, sym, ap, ◌∙◌, subst, true, false, inl, inr, arith, Bool-cases,
}
use crypto_market_advisor.Base.Int.{ℤ, pos}
use crypto_market_advisor.Numbers.Decimal.{Decimal, nought, hundred, is_zero}

infix 50 ◌≼◌ ◌≺◌
abbrev pub ◌≼◌ : {D : Type 0} ⦃d : Decimal D⦄ → D → D → Type 0
◌≼◌ ⦃d⦄ a b = d.lt b a ≡ false

abbrev pub ◌≺◌ : {D : Type 0} ⦃d : Decimal D⦄ → D → D → Type 0
◌≺◌ ⦃d⦄ a b = d.lt a b ≡ true

-- The value has at most 16 fractional digits, as many as `Div` keeps.
abbrev pub Fits : {D : Type 0} ⦃d : Decimal D⦄ → D → Type 0
Fits ⦃d⦄ a = d.round 16 a ≡ a

pub record IsDecimal (D : Type 0) ⦃d : Decimal D⦄ : Type 0 where
  pub lt_irrefl : (a : D) → a ≼ a
  pub lt_trans : (a b c : D) → a ≺ b → b ≺ c → a ≺ c
  pub lt_total : (a b : D) → a ≼ b → b ≼ a → a ≡ b
  -- Addition and subtraction are exact.
  pub add_comm : (a b : D) → d.add a b ≡ d.add b a
  pub add_assoc : (a b c : D) → d.add (d.add a b) c ≡ d.add a (d.add b c)
  pub zero-add : (a : D) → d.add nought a ≡ a
  pub sub-add : (a b : D) → d.add (d.sub a b) b ≡ a
  pub add_mono : (a b c : D) → a ≺ b → d.add a c ≺ d.add b c
  -- Multiplication is exact.
  pub zero-mul : (a : D) → d.mul nought a ≡ nought
  pub mul_comm : (a b : D) → d.mul a b ≡ d.mul b a
  pub mul_mono : (a b c : D) → a ≼ b → nought ≼ c → d.mul a c ≼ d.mul b c
  -- Division rounds to 16 digits: it is exact on a quotient that has no more, and monotone.
  pub mul-div : (a c : D) → Fits a → nought ≺ c → d.div (d.mul a c) c ≡ a
  pub div_mono : (a b c : D) → a ≼ b → nought ≺ c → d.div a c ≼ d.div b c
  pub div-Fits : (a b : D) → Fits (d.div a b)
  pub sub-Fits : (a b : D) → Fits a → Fits b → Fits (d.sub a b)
  pub round-Fits : (k : ℕ) (a : D) → k ≤ 16 → Fits (d.round k a)
  pub int-Fits : (z : ℤ) → Fits (d.of_int z)
  pub zero-lt-hundred : d.lt nought hundred ≡ true
  pub one-mul : (a : D) → d.mul (d.of_int (pos 1)) a ≡ a
  pub round_mono : (k : ℕ) (a b : D) → a ≼ b → d.round k a ≼ d.round k b
  pub round-int : (k : ℕ) (z : ℤ) → d.round k (d.of_int z) ≡ d.of_int z
  -- A column of 18 fractional digits keeps a value of at most 16. A value with more than 20 digits before the
  -- point is not stored at all: its statement fails.
  pub numeric-eq_of_Fits : (a : D) → Fits a → d.numeric a ≡ a

module _ {D : Type 0} ⦃d : Decimal D⦄ (laws : IsDecimal D) where
  open laws use {lt_irrefl, lt_trans, lt_total, add_comm, add_assoc, zero-add, sub-add, add_mono}
  open laws use {zero-mul, mul-div, div_mono, int-Fits, mul_comm, mul_mono}

  pub le_trans : (a b c : D) → a ≼ b → b ≼ c → a ≼ c
  le_trans a b c h k = elim (Bool-cases (d.lt c a)) [
    | inr e ↦ e
    | inl e ↦ elim (Bool-cases (d.lt a b)) [
      | inl f ↦ ground (arith, lt_trans c a b e f, k)
      | inr f ↦ ground (arith, lt_total a b h f, k, e)
    ]
  ]

  pub le_of_lt : (a b : D) → a ≺ b → a ≼ b
  le_of_lt a b h = elim (Bool-cases (d.lt b a)) [
    | inr e ↦ e
    | inl e ↦ ground (arith, lt_trans a b a h e, lt_irrefl a)
  ]

  pub lt_of_lt_of_le : (a b c : D) → a ≺ b → b ≼ c → a ≺ c
  lt_of_lt_of_le a b c h k = elim (Bool-cases (d.lt a c)) [
    | inl e ↦ e
    | inr e ↦ ground (arith, le_trans b c a k e, h)
  ]

  le_of_add_eq : (a b c : D) → d.add a c ≡ d.add b c → a ≼ b
  le_of_add_eq a b c h = elim (Bool-cases (d.lt b a)) [
    | inr e ↦ e
    | inl e ↦ ground (arith, add_mono b a c e, h, lt_irrefl (d.add a c))
  ]

  pub add_cancel : (a b c : D) → d.add a c ≡ d.add b c → a ≡ b
  add_cancel a b c h = lt_total a b (le_of_add_eq a b c h) (le_of_add_eq b a c (sym h))

  -- a ≼ b, then what is left of b after a is taken is not negative.
  pub sub_nonneg : (a b : D) → a ≼ b → nought ≼ d.sub b a
  sub_nonneg a b h = elim (Bool-cases (d.lt (d.sub b a) nought)) [
    | inr e ↦ e
    | inl e ↦ ground (arith, add_mono (d.sub b a) nought a e, sub-add b a, zero-add a, h)
  ]

  pub sub_pos : (a b : D) → a ≺ b → nought ≺ d.sub b a
  sub_pos a b h = elim (Bool-cases (d.lt nought (d.sub b a))) [
    | inl e ↦ e
    | inr e ↦ elim (Bool-cases (d.lt (d.sub b a) nought)) [
      | inl f ↦ ground (
        arith,
        add_mono (d.sub b a) nought a f,
        sub-add b a,
        zero-add a,
        lt_trans b a b,
        h,
        lt_irrefl b,
      )
      | inr f ↦
          ground (arith, lt_total (d.sub b a) nought e f, sub-add b a, zero-add a, h, lt_irrefl a)
    ]
  ]

  pub sub-le : (a b : D) → nought ≼ a → d.sub b a ≼ b
  sub-le a b h = elim (Bool-cases (d.lt b (d.sub b a))) [
    | inr e ↦ e
    | inl e ↦ ground (arith, add_mono b (d.sub b a) a e, sub-add b a, le_of_add_le b)
  ]
    where
      le_of_add_le : (c : D) → d.lt (d.add c a) c ≡ false
      le_of_add_le c = elim (Bool-cases (d.lt (d.add c a) c)) [
        | inr e ↦ e
        | inl e ↦ elim (Bool-cases (d.lt nought a)) [
          | inl f ↦ ground (
            arith,
            add_mono nought a c f,
            zero-add c,
            add_comm a c,
            lt_trans c (d.add c a) c,
            lt_irrefl c,
            e,
          )
          | inr f ↦ ground (arith, lt_total nought a h f, zero-add c, add_comm a c, lt_irrefl c, e)
        ]
      ]

  pub is_zero→≡ : (a : D) → is_zero a ≡ true → a ≡ nought
  is_zero→≡ a h = ground (arith, lt_total a nought)

  pub not_zero_of_pos : (a : D) → nought ≺ a → is_zero a ≡ false
  not_zero_of_pos a h = ground (arith, h)

  pub pos_of_not_zero : (a : D) → nought ≼ a → is_zero a ≡ false → nought ≺ a
  pos_of_not_zero a h k = ground (arith, h, k)

  -- A share of at most 100 percent of what is left, as the code computes it.
  pub share-le : (a p : D) → Fits a → nought ≼ a → p ≼ hundred → d.div (d.mul a p) hundred ≼ a
  share-le a p fits h k =
      subst (λ x. d.div (d.mul a p) hundred ≼ x) (mul-div a hundred fits laws.zero-lt-hundred)
        (div_mono (d.mul a p) (d.mul a hundred) hundred
          (rw (mul_comm a p, mul_comm a hundred) (mul_mono p hundred a k h)) laws.zero-lt-hundred)

  pub share_nonneg : (a p : D) → nought ≼ a → nought ≼ p → nought ≼ d.div (d.mul a p) hundred
  share_nonneg a p h k =
      subst (λ x. x ≼ d.div (d.mul a p) hundred)
        (ap (λ x. d.div x hundred) (sym (zero-mul hundred))
          ∙ mul-div nought hundred (int-Fits (pos 0)) laws.zero-lt-hundred)
        (div_mono nought (d.mul a p) hundred
          (subst (λ x. x ≼ d.mul a p) (zero-mul p) (mul_mono nought a p h k)) laws.zero-lt-hundred)

  -- A part of a positive whole in percent lies between 0 and 100, also when it is rounded.
  pub percent_bounds :
      (k : ℕ) (a b : D)
      → nought ≼ a
      → a ≼ b
      → nought ≺ b
      → (nought ≼ d.round k (d.mul (d.div a b) hundred))
        × (d.round k (d.mul (d.div a b) hundred) ≼ hundred)
  percent_bounds k a b h l p = (
    subst (λ x. x ≼ d.round k (d.mul (d.div a b) hundred)) (laws.round-int k (pos 0))
        (laws.round_mono k nought (d.mul (d.div a b) hundred) (
          subst (λ x. x ≼ d.mul (d.div a b) hundred) (zero-mul hundred)
            (mul_mono nought (d.div a b) hundred low
              (le_of_lt nought hundred laws.zero-lt-hundred)))),
    subst (λ x. d.round k (d.mul (d.div a b) hundred) ≼ x) (laws.round-int k (pos 100))
        (laws.round_mono k (d.mul (d.div a b) hundred) hundred (
          subst (λ x. d.mul (d.div a b) hundred ≼ x) (laws.one-mul hundred)
            (mul_mono (d.div a b) (d.of_int (pos 1)) hundred high
              (le_of_lt nought hundred laws.zero-lt-hundred)))),
  )
    where
      quotient : (z : ℤ) → d.div (d.mul (d.of_int z) b) b ≡ d.of_int z
      quotient z = mul-div (d.of_int z) b (int-Fits z) p

      low : nought ≼ d.div a b
      low =
          subst (λ x. x ≼ d.div a b) (ap (λ x. d.div x b) (sym (zero-mul b)) ∙ quotient (pos 0))
            (div_mono nought a b h p)

      high : d.div a b ≼ d.of_int (pos 1)
      high =
          subst (λ x. d.div a b ≼ x) (ap (λ x. d.div x b) (sym (laws.one-mul b)) ∙ quotient (pos 1))
            (div_mono a b b l p)
