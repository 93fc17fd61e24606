-- ===== src/Pnl/Bounds.antt =====
-- What a close takes out of a position, and the bounds of the percentages.
use crypto_market_advisor.Base.{
  ◌≡◌, refl, sym, subst, ap, ◌∙◌, ◌↔◌, ◌⊎◌, inl, inr, true, if◌then◌else◌, none, some, arith,
  Bool-cases, Option-cases, ◌&&◌,
}
use crypto_market_advisor.Numbers.Decimal.{Decimal, nought, hundred, is_zero, greater_than}
use crypto_market_advisor.Numbers.Laws.{
  IsDecimal, ◌≼◌, ◌≺◌, Fits, le_of_lt, share-le, share_nonneg, sub_nonneg, is_zero→≡,
  percent_bounds, add_cancel,
}
use crypto_market_advisor.Pnl.Compute.{or_nought, is_positive}
use crypto_market_advisor.Pnl.Close.{
  CloseRequest, CloseResult, close_size, close_result, compute_close,
}

module _ {D : Type 0} ⦃d : Decimal D⦄ (laws : IsDecimal D) where
  quantity_bounds :
      (remaining wanted : D)
      → nought ≺ remaining
      → nought ≺ wanted
      → let q =
          if greater_than remaining nought && greater_than wanted remaining
          then remaining
          else wanted in
        (nought ≼ q) × (q ≼ remaining)
  quantity_bounds remaining wanted held w = ground (
    arith,
    le_of_lt laws nought remaining held,
    le_of_lt laws nought wanted w,
    laws.lt_irrefl remaining,
  )

  pct_bounds :
      (remaining asked : D)
      → Fits remaining
      → nought ≺ remaining
      → nought ≺ asked
      → let q =
          d.div (d.mul remaining (if greater_than asked hundred then hundred else asked)) hundred in
        (nought ≼ q) × (q ≼ remaining)
  pct_bounds remaining asked fits held a = elim (Bool-cases (d.lt hundred asked)) [
    | inl e ↦ rw e (
      share_nonneg laws remaining hundred left (le_of_lt laws nought hundred laws.zero-lt-hundred),
      share-le laws remaining hundred fits left (laws.lt_irrefl hundred),
    )
    | inr e ↦ rw e (
      share_nonneg laws remaining asked left (le_of_lt laws nought asked a),
      share-le laws remaining asked fits left e,
    )
  ]
    where
      left : nought ≼ remaining
      left = le_of_lt laws nought remaining held

  is_zero-nought : is_zero (nought {D = D}) ≡ true
  is_zero-nought = rw (laws.lt_irrefl nought)

  -- Of two parts of a sum the first is nothing exactly if the second is all.
  pub is_zero_iff : (a b c : D) → d.add a b ≡ c → (is_zero a ≡ true) ↔ (b ≡ c)
  is_zero_iff a b c e = (
    λ z. sym (laws.zero-add b) ∙ ap (λ x. d.add x b) (sym (is_zero→≡ laws a z)) ∙ e,
    λ same.
        subst (λ x. is_zero x ≡ true)
          (sym (add_cancel laws a nought b (e ∙ sym same ∙ sym (laws.zero-add b)))) is_zero-nought,
  )

module _ {D F : Type 0} ⦃d : Decimal D⦄ where
  -- A request has a size if it gives a positive quantity or a positive percentage.
  abbrev pub HasSize : CloseRequest D F → Type 0
  HasSize req = (is_positive req.quantity ≡ true) ⊎ (is_positive req.close_pct ≡ true)

  -- `ComputeClose` fails exactly for a request without a size.
  pub compute_close-none_iff :
      (req : CloseRequest D F) → (compute_close req ≡ none) ↔ (¬ HasSize req)
  unfolding compute_close close_size
  compute_close-none_iff req = (λ h s. ground arith, λ n. ground (arith, n))

  -- A close that succeeds has a size, and its result.
  pub compute_close_inv :
      (req : CloseRequest D F) {res : CloseResult D}
      → compute_close req ≡ some res
      → let remaining = or_nought req.position.remaining_quantity in
        (q : D) × (pct : D) × (close_size req remaining ≡ some (q, pct))
        × (res ≡ close_result req remaining q pct)
  unfolding compute_close
  compute_close_inv req h =
      elim (Option-cases (close_size req (or_nought req.position.remaining_quantity))) [
        | inl n ↦ ground (arith, n, h)
        | inr ((q, pct), s) ↦ (q, pct, s, ground (arith, s, h))
      ]

  module _ (laws : IsDecimal D) where
    -- What `close_size` takes of a positive remaining quantity.
    close_size_bounds :
        (req : CloseRequest D F) (remaining q pct : D)
        → Fits remaining
        → nought ≺ remaining
        → close_size req remaining ≡ some (q, pct)
        → (nought ≼ q) × (q ≼ remaining)
    unfolding close_size
    close_size_bounds req remaining q pct fits held e = ground (
      arith,
      quantity_bounds laws remaining (or_nought req.quantity) held,
      pct_bounds laws remaining (or_nought req.close_pct) fits held,
    )

    -- What `close_result` leaves of a positive remaining quantity.
    close_result_bounds :
        (req : CloseRequest D F) (remaining q pct : D)
        → nought ≺ remaining
        → nought ≼ q
        → q ≼ remaining
        → let res = close_result req remaining q pct in
          (res.remaining ≡ d.sub remaining q)
          × (nought ≼ res.remaining)
          × (nought ≼ res.close_pct)
          × (res.close_pct ≼ hundred)
    unfolding close_result
    close_result_bounds req remaining q pct held low high =
        let (small, large) = percent_bounds laws 6 q remaining low high held in
        let rest = sub_nonneg laws q remaining high in rw (held, rest) (refl, rest, small, large)

    -- Of a positive remaining quantity with at most 16 fractional digits, a close that succeeds takes at least nothing and at most all, what it takes
    -- and what it leaves add up to it, and the percentage lies between 0 and 100.
    pub compute_close_bounds :
        (req : CloseRequest D F) (remaining : D) {res : CloseResult D}
        → req.position.remaining_quantity ≡ some remaining
        → Fits remaining
        → nought ≺ remaining
        → compute_close req ≡ some res
        → (nought ≼ res.quantity)
          × (res.quantity ≼ remaining)
          × (nought ≼ res.remaining)
          × (d.add res.remaining res.quantity ≡ remaining)
          × (nought ≼ res.close_pct)
          × (res.close_pct ≼ hundred)
    unfolding close_result
    compute_close_bounds req remaining {res} e fits held h =
        let (q, pct, s, r) = compute_close_inv req h in
        let size : close_size req remaining ≡ some (q, pct) =
          subst (λ o. close_size req (or_nought o) ≡ some (q, pct)) e s in
        let same : res ≡ close_result req remaining q pct =
          subst (λ o. res ≡ close_result req (or_nought o) q pct) e r in
        let (low, high) = close_size_bounds req remaining q pct fits held size in
        let (left, rest, small, large) = close_result_bounds req remaining q pct held low high in
        rw same (low, high, rest, rw left (laws.sub-add remaining q), small, large)

    full-eq-is_zero :
        (req : CloseRequest D F) (remaining q pct : D)
        → req.position.size_known ≡ true
        → nought ≺ remaining
        → let res = close_result req remaining q pct in res.fully_closed ≡ is_zero res.remaining
    unfolding close_result
    full-eq-is_zero req remaining q pct known held = rw (known, held)

    -- A close that succeeds, of a position of known size whose remaining quantity is positive and has
    -- at most 16 fractional digits, is full exactly if it takes all that is left.
    pub compute_close-full_iff :
        (req : CloseRequest D F) (remaining : D) {res : CloseResult D}
        → req.position.remaining_quantity ≡ some remaining
        → req.position.size_known ≡ true
        → Fits remaining
        → nought ≺ remaining
        → compute_close req ≡ some res
        → (res.fully_closed ≡ true) ↔ (res.quantity ≡ remaining)
    compute_close-full_iff req remaining {res} e known fits held h =
        let (q, pct, s, r) = compute_close_inv req h in
        let same : res ≡ close_result req remaining q pct =
          subst (λ o. res ≡ close_result req (or_nought o) q pct) e r in
        let full : res.fully_closed ≡ is_zero res.remaining =
          subst (λ x. x.fully_closed ≡ is_zero x.remaining) (sym same)
            (full-eq-is_zero req remaining q pct known held) in
        let (_, _, _, sum, _, _) = compute_close_bounds req remaining e fits held h in
        rw full (is_zero_iff laws res.remaining res.quantity remaining sum)
