-- ===== src/Positions/Ledger.antt =====
-- The quantity of a position balances with its fills: what is left and what the closing fills took add
-- up to the initial quantity, through every close.
use mathlib.Core.Option
use mathlib.Core.Option.{some-injective}
use crypto_market_advisor.Base.{
  ◌≡◌, refl, sym, ap, ◌∙◌, subst, inl, inr, true, false, Option, none, some, List, [], ◌∷◌, ◌++◌,
  arith, Bool-cases,
}
use crypto_market_advisor.Numbers.Decimal.{Decimal, nought, hundred, is_zero}
use crypto_market_advisor.Numbers.Laws.{
  IsDecimal, ◌≼◌, ◌≺◌, Fits, is_zero→≡, pos_of_not_zero, add_cancel,
}
use crypto_market_advisor.Domain.Timeframe.{Time}
use crypto_market_advisor.Domain.Plan.{Uuid}
use crypto_market_advisor.Domain.Position.{Position, Fill}
use crypto_market_advisor.Pnl.{
  CloseResult, CloseRequest as SizeRequest, compute_close, close_size, close_result, is_closed,
  or_nought,
}
use crypto_market_advisor.Pnl.Sums.{total, taken, total-append, add-zero}
use crypto_market_advisor.Pnl.Bounds.{compute_close_bounds, compute_close_inv, is_zero_iff}
use crypto_market_advisor.Positions.Repository.{stored_fill, closing_update}
use crypto_market_advisor.Positions.Service.{FeesConfig, CloseRequest}
use crypto_market_advisor.Positions.Close.{
  size_request, effective_quantity, is_full, closing_fill, closed_position,
}

-- A position of known size and its fills.
pub record IsBooked {D F : Type 0} ⦃d : Decimal D⦄ (p : Position D F) (fs : List (Fill D))
    : Type 0 where
  pub initial : D
  pub left : D
  pub known : p.size_known ≡ true
  pub initial_eq : p.initial_quantity ≡ some initial
  pub left_eq : p.remaining_quantity ≡ some left
  pub fits : Fits left
  pub balance : d.add left (total taken fs) ≡ initial
  pub live : is_closed p.status ≡ false → nought ≺ left
  pub spent : is_closed p.status ≡ true → left ≡ nought

-- The quantity that a request names, if it names one, has at most 16 fractional digits.
abbrev pub FitsIfGiven : {D : Type 0} ⦃d : Decimal D⦄ → Option D → Type 0
FitsIfGiven none = Unit
FitsIfGiven (some q) = Fits q

effective_quantity-Fits :
    {D : Type 0} ⦃d : Decimal D⦄ (req : CloseRequest D)
    → FitsIfGiven req.quantity
    → FitsIfGiven (effective_quantity req)
effective_quantity-Fits req given = elim (Bool-cases req.full) [
  | inl f ↦ rw f tt
  | inr f ↦ rw f given
]

module _ {D F : Type 0} ⦃d : Decimal D⦄ (laws : IsDecimal D) where
  close_size-Fits :
      (req : SizeRequest D F) (left q pct : D)
      → FitsIfGiven req.quantity
      → Fits left
      → close_size req left ≡ some (q, pct)
      → Fits q
  unfolding close_size
  close_size-Fits req left q pct given fits e = ground (
    arith,
    laws.div-Fits (d.mul left hundred) hundred,
    laws.div-Fits (d.mul left (or_nought req.close_pct)) hundred,
  )

  -- All of what is left, as a percentage.
  close_size-full :
      (fees : FeesConfig D) (p : Position D F) (req : CloseRequest D) (left : D)
      → req.full ≡ true
      → Fits left
      → close_size (size_request fees p req) left ≡ some (left, hundred)
  unfolding close_size
  close_size-full fees p req left full fits = rw (
    full,
    laws.zero-lt-hundred,
    laws.lt_irrefl hundred,
    laws.mul-div left hundred fits laws.zero-lt-hundred,
  )

module _ {D F : Type 0} ⦃d : Decimal D⦄ (laws : IsDecimal D) (fees : FeesConfig D)
    (p : Position D F) (req : CloseRequest D) {res : CloseResult D} (left : D)
    (left_eq : p.remaining_quantity ≡ some left) (fits : Fits left) (held : nought ≺ left)
    (known : p.size_known ≡ true)
    (closes : compute_close (size_request fees p req) ≡ some res) where
  abbrev bounds :
      (nought ≼ res.quantity)
      × (res.quantity ≼ left)
      × (nought ≼ res.remaining)
      × (d.add res.remaining res.quantity ≡ left)
      × (nought ≼ res.close_pct)
      × (res.close_pct ≼ hundred)
  bounds = compute_close_bounds laws (size_request fees p req) left left_eq fits held closes

  taken_size :
      (q : D) × (pct : D) × (close_size (size_request fees p req) left ≡ some (q, pct))
      × (res.quantity ≡ q)
  unfolding close_result
  taken_size =
      let (q, pct, s, r) = compute_close_inv (size_request fees p req) closes in
      (
        q,
        pct,
        subst (λ o. close_size (size_request fees p req) (or_nought o) ≡ some (q, pct)) left_eq s,
        ap (λ (x : CloseResult D). x.quantity) r,
      )

  -- The quantity taken fits, so that its fill keeps it exactly.
  quantity-Fits : FitsIfGiven req.quantity → Fits res.quantity
  quantity-Fits given =
      let (q, pct, s, e) = taken_size in
      rw e (
        close_size-Fits laws (size_request fees p req) left q pct
          (effective_quantity-Fits req given) fits s)

  -- A full close leaves nothing.
  full_leaves_none : req.full ≡ true → res.remaining ≡ nought
  full_leaves_none full =
      let (q, pct, s, e) = taken_size in
      let same : q ≡ left =
        ap (λ (o : D × D). o.0)
          (some-injective _ _ (sym s ∙ close_size-full laws fees p req left full fits)) in
      is_zero→≡ laws res.remaining
        ((is_zero_iff laws res.remaining res.quantity left bounds.3).1 (e ∙ same))

  -- In every case the position keeps what `ComputeClose` left.
  closed_position-left :
      (now : Time) → (closed_position p req res now).remaining_quantity ≡ some res.remaining
  unfolding closed_position
  closed_position-left now = elim (Bool-cases req.full) [
    | inl f ↦ rw (f, known) (ap some (sym (full_leaves_none f)))
    | inr f ↦ elim (Bool-cases (is_zero res.remaining)) [
      | inl z ↦ rw (f, known, z) (ap some (sym (is_zero→≡ laws res.remaining z)))
      | inr z ↦ rw (f, known, z) refl
    ]
  ]

  remaining-eq-sub : res.remaining ≡ d.sub left res.quantity
  remaining-eq-sub =
      add_cancel laws res.remaining (d.sub left res.quantity) res.quantity
        (bounds.3 ∙ sym (laws.sub-add left res.quantity))

  remaining-Fits : FitsIfGiven req.quantity → Fits res.remaining
  remaining-Fits given =
      rw remaining-eq-sub (laws.sub-Fits left res.quantity fits (quantity-Fits given))

  closed-eq-is_full :
      (now : Time) → is_closed (closed_position p req res now).status ≡ is_full p req res
  unfolding closed_position
  closed-eq-is_full now = ground arith

  full→none_left : is_full p req res ≡ true → res.remaining ≡ nought
  full→none_left h = elim (Bool-cases req.full) [
    | inl f ↦ full_leaves_none f
    | inr f ↦ is_zero→≡ laws res.remaining (rw (f, known) at h)
  ]

  not_full→some_left : is_full p req res ≡ false → nought ≺ res.remaining
  not_full→some_left h = pos_of_not_zero laws res.remaining bounds.2 (ground (arith, h, known))

  closing_fill-taken :
      FitsIfGiven req.quantity
      → (now : Time) (id : Uuid)
      → taken (stored_fill (closing_fill p req res now id)) ≡ res.quantity
  unfolding closing_fill
  closing_fill-taken given now id =
      rw known (laws.numeric-eq_of_Fits res.quantity (quantity-Fits given))

  balance-closing :
      FitsIfGiven req.quantity
      → (now : Time) (id : Uuid) (fs : List (Fill D)) (initial : D)
      → d.add left (total taken fs) ≡ initial
      → d.add res.remaining (total taken (fs ++ stored_fill (closing_fill p req res now id) ∷ []))
        ≡ initial
  balance-closing given now id fs initial e =
      ap (d.add res.remaining) (
        total-append laws taken fs (stored_fill (closing_fill p req res now id) ∷ [])
        ∙ ap (d.add (total taken fs)) (
            add-zero laws (taken (stored_fill (closing_fill p req res now id)))
            ∙ closing_fill-taken given now id))
      ∙ ap (d.add res.remaining) (laws.add_comm (total taken fs) res.quantity)
      ∙ sym (laws.add_assoc res.remaining res.quantity (total taken fs))
      ∙ ap (λ x. d.add x (total taken fs)) bounds.3
      ∙ e

module _ {D F : Type 0} ⦃d : Decimal D⦄ (laws : IsDecimal D) (fees : FeesConfig D) where
  -- A close of a position that balances with its fills and is not closed leaves one that balances
  -- with its fills and the new one, and is closed exactly if nothing is left of it, if the close has a
  -- size and a quantity that the request names has at most 16 fractional digits.
  pub close-IsBooked :
      (p : Position D F) (req : CloseRequest D) {res : CloseResult D} (fs : List (Fill D))
      (now : Time) (fill_id : Uuid)
      → IsBooked p fs
      → is_closed p.status ≡ false
      → FitsIfGiven req.quantity
      → compute_close (size_request fees p req) ≡ some res
      → IsBooked
          (closing_update (closed_position p req res now) p)
          (fs ++ stored_fill (closing_fill p req res now fill_id) ∷ [])
  close-IsBooked p req {res} fs now fill_id b is_live given closes = record {
    initial = b.initial;
    left = res.remaining;
    known = b.known;
    initial_eq = b.initial_eq;
    left_eq =
        ap (Option.map d.numeric)
          (closed_position-left laws fees p req b.left b.left_eq b.fits held b.known closes now)
        ∙ ap some (laws.numeric-eq_of_Fits res.remaining rest_fits);
    fits = rest_fits;
    balance =
        balance-closing laws fees p req b.left b.left_eq b.fits held b.known closes given now
          fill_id fs b.initial b.balance;
    live = λ h.
        not_full→some_left laws fees p req b.left b.left_eq b.fits held b.known closes
          (sym (status now) ∙ h);
    spent = λ h.
        full→none_left laws fees p req b.left b.left_eq b.fits held b.known closes
          (sym (status now) ∙ h);
  }
    where
      held : nought ≺ b.left
      held = b.live is_live

      rest_fits : Fits res.remaining
      rest_fits = remaining-Fits laws fees p req b.left b.left_eq b.fits held b.known closes given

      status : (t : Time) → is_closed (closed_position p req res t).status ≡ is_full p req res
      status t = closed-eq-is_full laws fees p req b.left b.left_eq b.fits held b.known closes t
