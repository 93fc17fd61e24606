-- ===== src/Pnl/Sums.antt =====
-- The sums of `Compute` against their definition as totals.
use crypto_market_advisor.Base.{◌≡◌, refl, sym, ap, ◌∙◌, if◌then◌else◌, List, [], ◌∷◌, ◌++◌, arith}
use crypto_market_advisor.Numbers.Decimal.{Decimal, nought}
use crypto_market_advisor.Numbers.Laws.{IsDecimal}
use crypto_market_advisor.Domain.Position.{Fill, CashEvent}
use crypto_market_advisor.Pnl.Compute.{
  Inputs, Sums, is_close, add_fill, sum_fills, sum_amounts, compute, or_nought,
}

module _ {D : Type 0} ⦃d : Decimal D⦄ where
  -- What a fill adds to the gross result: its realized P&L if it is a close.
  abbrev pub gain : Fill D → D
  gain f = if is_close f.kind then f.realized_pnl else nought

  -- What a fill takes out of the position: its quantity if it is a close that has one.
  abbrev pub taken : Fill D → D
  taken f = if is_close f.kind then or_nought f.quantity else nought

  abbrev pub total : {A : Type 0} → (A → D) → List A → D
  total f [] = nought
  total f (x ∷ xs) = d.add (f x) (total f xs)

  abbrev pub fee_of : Fill D → D
  fee_of f = f.fee

  abbrev pub amount_of : CashEvent D → D
  amount_of e = e.amount

  module _ (laws : IsDecimal D) where
    open laws use {add_comm, add_assoc, zero-add}

    pub add-zero : (a : D) → d.add a nought ≡ a
    add-zero a = add_comm a nought ∙ zero-add a

    add-swap : (a b c : D) → d.add a (d.add b c) ≡ d.add b (d.add a c)
    add-swap a b c = sym (add_assoc a b c) ∙ ap (λ x. d.add x c) (add_comm a b) ∙ add_assoc b a c

    pub total-append :
        {A : Type 0} (f : A → D) (xs ys : List A)
        → total f (xs ++ ys) ≡ d.add (total f xs) (total f ys)
    total-append f [] ys = sym (zero-add (total f ys))
    total-append f (x ∷ xs) ys =
        ap (d.add (f x)) (total-append f xs ys) ∙ sym (add_assoc (f x) (total f xs) (total f ys))

    pub sum_amounts-total :
        (acc : D) (es : List (CashEvent D)) → sum_amounts acc es ≡ d.add acc (total amount_of es)
    unfolding sum_amounts
    sum_amounts-total acc [] = sym (add-zero acc)
    sum_amounts-total acc (e ∷ es) =
        sum_amounts-total (d.add acc e.amount) es ∙ add_assoc acc e.amount (total amount_of es)

    add_fill-fees : (s : Sums D) (f : Fill D) → (add_fill s f).fees ≡ d.add s.fees f.fee
    add_fill-fees s f = ground arith

    add_fill-gross : (s : Sums D) (f : Fill D) → (add_fill s f).gross ≡ d.add s.gross (gain f)
    add_fill-gross s f = ground (arith, add-zero s.gross)

    pub sum_fills-fees :
        (s : Sums D) (fs : List (Fill D)) → (sum_fills s fs).fees ≡ d.add s.fees (total fee_of fs)
    unfolding sum_fills
    sum_fills-fees s [] = sym (add-zero s.fees)
    sum_fills-fees s (f ∷ fs) =
        sum_fills-fees (add_fill s f) fs
        ∙ ap (λ x. d.add x (total fee_of fs)) (add_fill-fees s f)
        ∙ add_assoc s.fees f.fee (total fee_of fs)

    pub sum_fills-gross :
        (s : Sums D) (fs : List (Fill D)) → (sum_fills s fs).gross ≡ d.add s.gross (total gain fs)
    unfolding sum_fills
    sum_fills-gross s [] = sym (add-zero s.gross)
    sum_fills-gross s (f ∷ fs) =
        sum_fills-gross (add_fill s f) fs
        ∙ ap (λ x. d.add x (total gain fs)) (add_fill-gross s f)
        ∙ add_assoc s.gross (gain f) (total gain fs)

    module _ {F : Type 0} (i : Inputs D F) where
      pub compute-fees : (compute i).fees ≡ d.add (total fee_of i.fills) (total amount_of i.fees)
      unfolding compute
      compute-fees =
          sum_amounts-total (sum_fills start i.fills).fees i.fees
          ∙ ap (λ x. d.add x (total amount_of i.fees))
              (sum_fills-fees start i.fills ∙ zero-add (total fee_of i.fills))
        where
          start : Sums D
          start = record { gross = nought; fees = nought; closed_qty = nought }

      pub compute-gross : (compute i).gross_realized ≡ total gain i.fills
      unfolding compute
      compute-gross =
          sum_fills-gross (record { gross = nought; fees = nought; closed_qty = nought }) i.fills
          ∙ zero-add (total gain i.fills)

      pub compute-funding : (compute i).funding ≡ total amount_of i.funding
      unfolding compute
      compute-funding = sum_amounts-total nought i.funding ∙ zero-add (total amount_of i.funding)

      compute-net :
          (compute i).net_realized
          ≡ d.add (d.sub (compute i).gross_realized (compute i).fees) (compute i).funding
      unfolding compute
      compute-net = refl

      -- The net realized result is the realized P&L of the closing fills, less all fees, of fills
      -- and of fee entries, plus all funding.
      pub net_realized_lem :
          (compute i).net_realized
          ≡ d.add
              (d.sub (total gain i.fills) (d.add (total fee_of i.fills) (total amount_of i.fees)))
              (total amount_of i.funding)
      net_realized_lem = compute-net ∙ rw (compute-gross, compute-fees, compute-funding)
