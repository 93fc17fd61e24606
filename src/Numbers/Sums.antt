-- ===== src/Numbers/Sums.antt =====
-- Sums and differences of decimals, which are exact.
use crypto_market_advisor.Base.{◌≡◌, refl, sym, ap, ◌∙◌, List, [], ◌∷◌, ◌++◌}
use crypto_market_advisor.Numbers.Decimal.{Decimal, nought}
use crypto_market_advisor.Numbers.Laws.{IsDecimal, add_cancel}

module _ {D : Type 0} ⦃d : Decimal D⦄ (laws : IsDecimal D) where
  open laws use {add_comm, add_assoc, sub-add, zero-add}

  pub add_swap : (a b c : D) → d.add a (d.add b c) ≡ d.add b (d.add a c)
  add_swap a b c = sym (add_assoc a b c) ∙ ap (λ x. d.add x c) (add_comm a b) ∙ add_assoc b a c

  pub add_right_swap : (a b c : D) → d.add (d.add a b) c ≡ d.add (d.add a c) b
  add_right_swap a b c = add_assoc a b c ∙ ap (d.add a) (add_comm b c) ∙ sym (add_assoc a c b)

  add_interchange : (a b c e : D) → d.add (d.add a b) (d.add c e) ≡ d.add (d.add a c) (d.add b e)
  add_interchange a b c e =
      sym (add_assoc (d.add a b) c e)
      ∙ ap (λ x. d.add x e) (add_right_swap a b c)
      ∙ add_assoc (d.add a c) b e

  pub sub-eq_of_add : (a b c : D) → a ≡ d.add c b → d.sub a b ≡ c
  sub-eq_of_add a b c h = add_cancel laws (d.sub a b) c b (sub-add a b ∙ h)

  pub eq_of_sub : (a b c : D) → d.sub a b ≡ c → a ≡ d.add c b
  eq_of_sub a b c h = sym (sub-add a b) ∙ ap (λ x. d.add x b) h

  pub sub_self : (a : D) → d.sub a a ≡ nought
  sub_self a = sub-eq_of_add a a nought (sym (zero-add a))

  pub sub-add_left : (a b c : D) → d.sub (d.add a b) c ≡ d.add a (d.sub b c)
  sub-add_left a b c =
      sub-eq_of_add (d.add a b) c (d.add a (d.sub b c))
        (ap (d.add a) (sym (sub-add b c)) ∙ sym (add_assoc a (d.sub b c) c))

  pub sub-add_add : (a b c e : D) → d.sub (d.add a b) (d.add c e) ≡ d.add (d.sub a c) (d.sub b e)
  sub-add_add a b c e = sub-eq_of_add (d.add a b) (d.add c e) (d.add (d.sub a c) (d.sub b e)) (
      ap (λ x. d.add x b) (sym (sub-add a c))
      ∙ ap (d.add (d.add (d.sub a c) c)) (sym (sub-add b e))
      ∙ sym (add_interchange (d.sub a c) (d.sub b e) c e))

  pub sub_shift : (a b x : D) → d.sub (d.add a x) (d.add b x) ≡ d.sub a b
  sub_shift a b x =
      sub-eq_of_add (d.add a x) (d.add b x) (d.sub a b)
        (ap (λ y. d.add y x) (sym (sub-add a b)) ∙ add_assoc (d.sub a b) b x)

module _ {ℓ} {A : Type ℓ} {D : Type 0} ⦃d : Decimal D⦄ where
  -- The sum of an amount over a list.
  abbrev pub total : (A → D) → List A → D
  total amount [] = nought
  total amount (x ∷ xs) = d.add (amount x) (total amount xs)

  module _ (laws : IsDecimal D) where
    pub total-middle :
        (amount : A → D) (xs : List A) (x : A) (ys : List A)
        → total amount (xs ++ x ∷ ys) ≡ d.add (amount x) (total amount (xs ++ ys))
    total-middle amount [] x ys = refl
    total-middle amount (y ∷ xs) x ys =
        ap (d.add (amount y)) (total-middle amount xs x ys)
        ∙ add_swap laws (amount y) (amount x) (total amount (xs ++ ys))
