-- ===== src/Positions/Books/Changes.antt =====
-- The changes of the tables that the service makes keep them sound.
use mathlib.Core.Option
use mathlib.Core.Option.{some-injective}
use crypto_market_advisor.Base.{
  ◌≡◌, refl, sym, ap, ◌∙◌, subst, inl, inr, true, false, if◌then◌else◌, none, some, List, [], ◌∷◌,
  ◌++◌, arith, Bool-cases, Option-cases, ◌==◌, ==→≡, ==_refl, All, All-append,
}
use crypto_market_advisor.Numbers.Decimal.{Decimal}
use crypto_market_advisor.Numbers.Laws.{IsDecimal}
use crypto_market_advisor.Domain.Timeframe.{Time}
use crypto_market_advisor.Domain.Plan.{Uuid, TradePlan}
use crypto_market_advisor.Domain.Position.{Position, Fill}
use crypto_market_advisor.Pnl.{CloseResult, compute_close, is_closed}
use crypto_market_advisor.Positions.Repository.{
  find_position, fills_of, update_rows, closing_update, stored_fill,
}
use crypto_market_advisor.Positions.Service.{FeesConfig, CloseRequest}
use crypto_market_advisor.Positions.Close.{size_request, closing_fill, closed_position}
use crypto_market_advisor.Positions.Ledger.{IsBooked, FitsIfGiven, close-IsBooked}
use crypto_market_advisor.Positions.Books.Rows.{
  Refers, IsSound, find_position-id, find_position-update, fills_of-append,
}

module _ {D F : Type 0} where
  -- An update of rows that keeps their ids keeps the references of fills.
  Refers-update :
      (change : Position D F → Position D F)
      → ((p : Position D F) → (change p).id ≡ p.id)
      → (id : Uuid) (ps : List (Position D F)) (fs : List (Fill D)) → All (Refers ps) fs
      → All (Refers (update_rows change id ps)) fs
  Refers-update change same id ps [] r = tt
  Refers-update change same id ps (f ∷ fs) (h, r) = (
    λ n. h (none_of (sym (find_position-update change same id f.position_id ps) ∙ n)),
    Refers-update change same id ps fs r,
  )
    where
      none_of :
          (if f.position_id == id
              then Option.map change (find_position f.position_id ps)
              else find_position f.position_id ps)
            ≡ none
          → find_position f.position_id ps ≡ none
      none_of e = ground arith

module _ {D F : Type 0} ⦃d : Decimal D⦄ where
  -- An update of rows that keeps ids, sizes and balances keeps the tables sound.
  pub update-IsSound :
      (change : Position D F → Position D F)
      → ((p : Position D F) → (change p).id ≡ p.id)
      → ((p : Position D F) → (change p).size_known ≡ p.size_known)
      → ((p : Position D F) (fs : List (Fill D)) → IsBooked p fs → IsBooked (change p) fs)
      → (id : Uuid) (ps : List (Position D F)) (fs : List (Fill D)) → IsSound ps fs
      → IsSound (update_rows change id ps) fs
  update-IsSound change same size keep id ps fs s = record {
    refers = Refers-update change same id ps fs s.refers;
    booked = booked;
  }
    where
      booked :
          (j : Uuid) (q : Position D F)
          → find_position j (update_rows change id ps) ≡ some q
          → q.size_known ≡ true
          → IsBooked q (fills_of j fs)
      booked j q h known = elim (Option-cases (find_position j ps)) [
        | inl n ↦ absurd (ground (arith, find_position-update change same id j ps, n, h))
        | inr (p, e) ↦ elim (Bool-cases (j == id)) [
          | inl i ↦
              let to : change p ≡ q =
                ground (arith, find_position-update change same id j ps, e, h, i) in
              subst (λ x. IsBooked x (fills_of j fs)) to
                (keep p (fills_of j fs) (
                  s.booked j p e
                    (sym (size p) ∙ ap (λ (x : Position D F). x.size_known) to ∙ known)))
          | inr i ↦
              let to : p ≡ q = ground (arith, find_position-update change same id j ps, e, h, i) in
              subst (λ x. IsBooked x (fills_of j fs)) to
                (s.booked j p e (ap (λ (x : Position D F). x.size_known) to ∙ known))
        ]
      ]

  -- A new plan changes nothing that is balanced.
  pub plan-IsSound :
      (plan : TradePlan F) (id : Uuid) (ps : List (Position D F)) (fs : List (Fill D))
      → IsSound ps fs
      → IsSound (update_rows (λ p. record p { current_plan = some plan }) id ps) fs
  plan-IsSound plan id ps fs s =
      update-IsSound (λ p. record p { current_plan = some plan }) (λ p. refl) (λ p. refl) keep id ps
        fs s
    where
      keep :
          (p : Position D F) (gs : List (Fill D))
          → IsBooked p gs
          → IsBooked (record p { current_plan = some plan }) gs
      keep p gs b = record {
        initial = b.initial;
        left = b.left;
        known = b.known;
        initial_eq = b.initial_eq;
        left_eq = b.left_eq;
        fits = b.fits;
        balance = b.balance;
        live = b.live;
        spent = b.spent;
      }

  -- A row keeps its id and its size through a close.
  closed_position-id :
      (p : Position D F) (req : CloseRequest D) (res : CloseResult D) (now : Time)
      → (closed_position p req res now).id ≡ p.id
  unfolding closed_position
  closed_position-id p req res now = ground arith

  closing_fill-position :
      (p : Position D F) (req : CloseRequest D) (res : CloseResult D) (now : Time) (id : Uuid)
      → (closing_fill p req res now id).position_id ≡ p.id
  unfolding closing_fill
  closing_fill-position p req res now id = refl

  module _ (laws : IsDecimal D) (fees : FeesConfig D) (id : Uuid) (p : Position D F)
      (req : CloseRequest D) (res : CloseResult D) (now : Time) (fill_id : Uuid)
      (ps : List (Position D F)) (fs : List (Fill D)) (at : find_position id ps ≡ some p)
      (live : is_closed p.status ≡ false) (given : FitsIfGiven req.quantity)
      (closes : compute_close (size_request fees p req) ≡ some res) (s : IsSound ps fs) where
    abbrev update : Position D F → Position D F
    update = closing_update (closed_position p req res now)

    abbrev fill : Fill D
    fill = stored_fill (closing_fill p req res now fill_id)

    fill-position : fill.position_id ≡ id
    fill-position = closing_fill-position p req res now fill_id ∙ find_position-id id ps at

    IsBooked-after_close :
        (j : Uuid) (q : Position D F)
        → find_position j (update_rows update id ps) ≡ some q
        → q.size_known ≡ true
        → IsBooked q (fills_of j (fs ++ fill ∷ []))
    IsBooked-after_close j q h known = elim (Option-cases (find_position j ps)) [
      | inl n ↦ absurd (ground (arith, find_position-update update (λ x. refl) id j ps, n, h))
      | inr (r, e) ↦ elim (Bool-cases (j == id)) [
        | inl i ↦
            let to : update r ≡ q =
              ground (arith, find_position-update update (λ x. refl) id j ps, e, h, i) in
            let one : r ≡ p =
              some-injective _ _ (sym e ∙ ap (λ k. find_position k ps) (==→≡ j id i) ∙ at) in
            let more : fills_of j (fs ++ fill ∷ []) ≡ fills_of j fs ++ fill ∷ [] =
              ground (arith, fills_of-append j fs fill, fill-position, i) in
            let size : p.size_known ≡ true =
              ap (λ (x : Position D F). x.size_known) (sym one)
              ∙ ap (λ (x : Position D F). x.size_known) to
              ∙ known in
            subst (IsBooked q) (sym more) (
              subst (λ x. IsBooked x (fills_of j fs ++ fill ∷ [])) (sym (ap update one) ∙ to)
                (close-IsBooked laws fees p req (fills_of j fs) now fill_id
                  (s.booked j p (e ∙ ap some one) size) live given closes))
        | inr i ↦
            let to : r ≡ q =
              ground (arith, find_position-update update (λ x. refl) id j ps, e, h, i) in
            let same : fills_of j (fs ++ fill ∷ []) ≡ fills_of j fs =
              ground (arith, fills_of-append j fs fill, fill-position, i) in
            subst (IsBooked q) (sym same) (
              subst (λ x. IsBooked x (fills_of j fs)) to
                (s.booked j r e (ap (λ (x : Position D F). x.size_known) to ∙ known)))
      ]
    ]

    fill-Refers : Refers (update_rows update id ps) fill
    fill-Refers n =
        let missing : find_position id (update_rows update id ps) ≡ none =
          subst (λ k. find_position k (update_rows update id ps) ≡ none) fill-position n in
        ground (arith, find_position-update update (λ x. refl) id id ps, at, missing, ==_refl id)

    -- A close keeps the tables sound.
    pub close-IsSound :
        IsSound (update_rows update (closed_position p req res now).id ps) (fs ++ fill ∷ [])
    close-IsSound =
        subst (λ k. IsSound (update_rows update k ps) (fs ++ fill ∷ []))
          (sym (closed_position-id p req res now ∙ find_position-id id ps at))
          (record {
            refers =
                All-append (Refers (update_rows update id ps)) fs (fill ∷ [])
                  (Refers-update update (λ x. refl) id ps fs s.refers) (fill-Refers, tt);
            booked = IsBooked-after_close;
          })
