-- ===== src/Pnl/Order.antt =====
-- The result of `Compute` does not depend on the order in which the history is read.
use mathlib.Core.List.{Permᴰ}
use crypto_market_advisor.Base.{◌≡◌, refl, sym, ap, ◌∙◌, List}
use crypto_market_advisor.Numbers.Decimal.{Decimal, nought}
use crypto_market_advisor.Numbers.Laws.{IsDecimal}
use crypto_market_advisor.Domain.Position.{Fill, CashEvent}
use crypto_market_advisor.Pnl.Compute.{Inputs, Sums, sum_fills, sum_amounts, compute}
use crypto_market_advisor.Pnl.Sums.{
  total, gain, fee_of, amount_of, sum_fills-fees, sum_fills-gross, sum_amounts-total,
}

module _ {D : Type 0} ⦃d : Decimal D⦄ (laws : IsDecimal D) where
  open laws use {add_comm, add_assoc}

  swap-add : (a b c : D) → d.add a (d.add b c) ≡ d.add b (d.add a c)
  swap-add a b c = sym (add_assoc a b c) ∙ ap (λ x. d.add x c) (add_comm a b) ∙ add_assoc b a c

  total-perm : {A : Type 0} (f : A → D) {xs ys : List A} → Permᴰ xs ys → total f xs ≡ total f ys
  total-perm f Permᴰ.nil = refl
  total-perm f (Permᴰ.cons {a = a} {b = b} {l₁ = xs} {l₂ = ys} e p) =
      ap (λ x. d.add (f x) (total f xs)) e ∙ ap (d.add (f b)) (total-perm f p)
  total-perm f (Permᴰ.swap {a = a} {b = b} {a' = a'} {b' = b'} {l = l} e k) =
      rw (e, k) (swap-add (f b') (f a') (total f l))
  total-perm f (Permᴰ.trans p q) = total-perm f p ∙ total-perm f q

  module _ {F : Type 0} (i : Inputs D F) where
    -- Reordering the fills, the fee entries and the funding entries changes no field of the result.
    pub compute-perm :
        (fs : List (Fill D)) (es us : List (CashEvent D))
        → Permᴰ i.fills fs
        → Permᴰ i.fees es
        → Permᴰ i.funding us
        → compute (record i { fills = fs; fees = es; funding = us }) ≡ compute i
    unfolding compute
    compute-perm fs es us p q r = rw (gross, fees, paid, received)
      where
        start : Sums D
        start = record { gross = nought; fees = nought; closed_qty = nought }

        gross : (sum_fills start fs).gross ≡ (sum_fills start i.fills).gross
        gross =
            sum_fills-gross laws start fs
            ∙ ap (d.add nought) (sym (total-perm gain p))
            ∙ sym (sum_fills-gross laws start i.fills)

        fees : (sum_fills start fs).fees ≡ (sum_fills start i.fills).fees
        fees =
            sum_fills-fees laws start fs
            ∙ ap (d.add nought) (sym (total-perm fee_of p))
            ∙ sym (sum_fills-fees laws start i.fills)

        paid :
            sum_amounts (sum_fills start i.fills).fees es
            ≡ sum_amounts (sum_fills start i.fills).fees i.fees
        paid =
            sum_amounts-total laws (sum_fills start i.fills).fees es
            ∙ ap (d.add (sum_fills start i.fills).fees) (sym (total-perm amount_of q))
            ∙ sym (sum_amounts-total laws (sum_fills start i.fills).fees i.fees)

        received : sum_amounts nought us ≡ sum_amounts nought i.funding
        received =
            sum_amounts-total laws nought us
            ∙ ap (d.add nought) (sym (total-perm amount_of r))
            ∙ sym (sum_amounts-total laws nought i.funding)
