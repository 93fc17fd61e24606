-- ===== src/Positions/Books/Steps.antt =====
-- The operations of the positions service as steps of a session, and what every run of them keeps.
use crypto_market_advisor.Base.{
  ◌≡◌, refl, sym, ap, ◌∙◌, subst, inl, inr, true, none, some, [], ◌∷◌, ◌++◌, arith,
}
use crypto_market_advisor.Numbers.Decimal.{Decimal, nought}
use crypto_market_advisor.Numbers.Laws.{IsDecimal, ◌≺◌}
use crypto_market_advisor.Domain.Timeframe.{Time}
use crypto_market_advisor.Domain.Market.{Asset}
use crypto_market_advisor.Domain.Plan.{Uuid, TradePlan}
use crypto_market_advisor.Domain.Position.{Position, Payload}
use crypto_market_advisor.Pnl.{Size}
use crypto_market_advisor.Pnl.Sums.{add-zero}
use crypto_market_advisor.Pnl.Sizes.{derive_size-IsKept, IsKept}
use crypto_market_advisor.Positions.Store.{Store, Session, Result, ok, err, next, Db, ◌>>=◌}
use crypto_market_advisor.Positions.Repository.{find_position, update_rows, stored, stored_fill}
use crypto_market_advisor.Positions.Queries.{update_plan as store_plan, delete}
use crypto_market_advisor.Positions.Service.{
  FeesConfig, OpenRequest, CloseRequest, requested_size, new_position, opening_fill, open_position,
}
use crypto_market_advisor.Positions.Close.{settle, record_close}
use crypto_market_advisor.Positions.Atomic.{Recorded, record_close-Recorded}
use crypto_market_advisor.Positions.Opening.{Opened, open_position-Opened}
use crypto_market_advisor.Positions.Ledger.{IsBooked, FitsIfGiven}
use crypto_market_advisor.Positions.Books.Rows.{IsSound}
use crypto_market_advisor.Positions.Books.Changes.{close-IsSound, plan-IsSound}
use crypto_market_advisor.Positions.Books.Ends.{new-IsSound, delete-IsSound}
use crypto_market_advisor.Positions.Books.Outcomes.{
  Reads, SameBooks, store_plan-outcome, delete-outcome,
}

module _ {D F : Type 0} ⦃d : Decimal D⦄ where
  -- The tables of a store are sound.
  abbrev pub IsSoundStore : Store D F → Type 0
  IsSoundStore s = IsSound s.positions s.fills

  pub same-IsSound : (s t : Store D F) → SameBooks s t → IsSoundStore s → IsSoundStore t
  same-IsSound s t (p, f) h =
      subst (λ x. IsSound x t.fills) (sym p) (subst (λ x. IsSound s.positions x) (sym f) h)

  equal-IsSound : (s t : Store D F) → t ≡ s → IsSoundStore s → IsSoundStore t
  equal-IsSound s t e h = subst IsSoundStore (sym e) h

  module _ (laws : IsDecimal D) where
    -- A close keeps the tables sound, if the quantity that it names has at most 16 digits.
    pub record_close-IsSound :
        (fees : FeesConfig D) (now : Time) (fill_id : Uuid) (req : CloseRequest D) (s : Session D F)
        → FitsIfGiven req.quantity
        → IsSoundStore s.store
        → IsSoundStore (record_close fees now fill_id req s).1.store
    unfolding settle
    record_close-IsSound fees now fill_id req s given sound =
        after (record_close fees now fill_id req s) (record_close-Recorded fees now fill_id req s)
      where
        after :
            (x : Result (Position D F) × Session D F)
            → Recorded fees now fill_id req s.store x.0 x.1.store
            → IsSoundStore x.1.store
        after (err e, t) h = equal-IsSound s.store t.store h sound
        after (ok p, t) (at, live, (res, closes, e)) = subst IsSoundStore (sym e) (
            close-IsSound laws fees req.position_id p req res now fill_id s.store.positions
              s.store.fills at live given closes sound)

    -- A new position of positive size balances with its opening fill.
    new-IsBooked :
        (fees : FeesConfig D) (req : OpenRequest D F) (asset : Asset) (now : Time)
        (id fill_id : Uuid)
        → let size = requested_size req in
          let p = new_position req asset size now id in
          size.size_known ≡ true
          → nought ≺ size.quantity
          → IsBooked (stored p) (stored_fill (opening_fill fees req size p fill_id) ∷ [])
    unfolding new_position opening_fill
    new-IsBooked fees req asset now id fill_id known positive = record {
      initial = size.quantity;
      left = size.quantity;
      known = known;
      initial_eq = rw known (ap some (laws.numeric-eq_of_Fits size.quantity kept.quantity_fits));
      left_eq = rw known (ap some (laws.numeric-eq_of_Fits size.quantity kept.quantity_fits));
      fits = kept.quantity_fits;
      balance = ap (d.add size.quantity) (add-zero laws nought) ∙ add-zero laws size.quantity;
      live = λ h. positive;
      spent = λ h. cc;
    }
      where
        size : Size D
        size = requested_size req

        kept : IsKept size
        kept =
            derive_size-IsKept laws req.entry_price req.leverage req.quantity req.notional
              req.margin

    open_fill-position :
        (fees : FeesConfig D) (req : OpenRequest D F) (asset : Asset) (now : Time)
        (id fill_id : Uuid)
        → let p = new_position req asset (requested_size req) now id in
          ((stored_fill (opening_fill fees req (requested_size req) p fill_id)).position_id ≡ p.id)
          × (p.id ≡ id)
          × (p.size_known ≡ (requested_size req).size_known)
    unfolding new_position opening_fill
    open_fill-position fees req asset now id fill_id = (refl, refl, refl)

    -- Opening a position keeps the tables sound, if a size that is known is not rounded to zero.
    pub open_position-IsSound :
        (fees : FeesConfig D) (now : Time) (id fill_id : Uuid) (req : OpenRequest D F)
        (s : Session D F)
        → ((requested_size req).size_known ≡ true → nought ≺ (requested_size req).quantity)
        → IsSoundStore s.store
        → IsSoundStore (open_position fees now id fill_id req s).1.store
    open_position-IsSound fees now id fill_id req s positive sound =
        after (open_position fees now id fill_id req s)
          (open_position-Opened fees now id fill_id req s)
      where
        after :
            (x : Result (Position D F) × Session D F)
            → Opened fees now id fill_id req s.upper s.store x.0 x.1.store
            → IsSoundStore x.1.store
        after (err e, t) h = equal-IsSound s.store t.store h sound
        after (ok p, t) (asset, a, e, fresh, (ds, w)) =
            let np : Position D F = new_position req asset (requested_size req) now id in
            let (own, same_id, same_size) = open_fill-position fees req asset now id fill_id in
            let missing : find_position np.id s.store.positions ≡ none =
              ground (arith, fresh, same_id) in
            let tables : IsSound (s.store.positions ++ stored np ∷ []) (
                s.store.fills
                ++ stored_fill (opening_fill fees req (requested_size req) np fill_id) ∷ []) =
              new-IsSound s.store.positions s.store.fills sound (stored np)
                (stored_fill (opening_fill fees req (requested_size req) np fill_id)) missing own
                (λ k.
                  new-IsBooked fees req asset now id fill_id (sym same_size ∙ k)
                    (positive (sym same_size ∙ k))) in
            subst IsSoundStore (sym w) (
              subst
                (λ (q : Position D F). IsSound (s.store.positions ++ stored q ∷ []) (
                  s.store.fills
                  ++ stored_fill (opening_fill fees req (requested_size req) q fill_id) ∷ []))
                (sym e) tables)

  -- Statements that keep the tables sound.
  abbrev pub Keeps : {A : Type 0} → Db D F A → Type 0
  Keeps m = (s : Session D F) → IsSoundStore s.store → IsSoundStore (m s).1.store

  next-Keeps :
      {A B : Type 0} (f : A → Db D F B)
      → ((a : A) → Keeps (f a))
      → (x : Result A × Session D F) → IsSoundStore x.1.store
      → IsSoundStore (next f x).1.store
  next-Keeps f k (ok a, t) h = k a t h
  next-Keeps f k (err e, t) h = h

  pub >>=-Keeps :
      {A B : Type 0} (m : Db D F A) (f : A → Db D F B)
      → Keeps m
      → ((a : A) → Keeps (f a))
      → Keeps (m >>= f)
  >>=-Keeps m f h k s sound = next-Keeps f k (m s) (h s sound)

  pub Reads-Keeps : {A : Type 0} (m : Db D F A) → Reads m → Keeps m
  Reads-Keeps m r s sound = equal-IsSound s.store (m s).1.store (r s) sound

  pub store_plan-Keeps :
      (id : Uuid) (plan : TradePlan F) (now : Time) (load : Payload D F)
      → Keeps (store_plan id plan now load)
  store_plan-Keeps id plan now load s sound = elim (store_plan-outcome id plan now load s) [
    | inl same ↦ same-IsSound s.store (store_plan id plan now load s).1.store same sound
    | inr (p, f) ↦
        subst (λ x. IsSound x (store_plan id plan now load s).1.store.fills) (sym p)
          (subst
            (λ x.
              IsSound
                (update_rows (λ q. record q { current_plan = some plan }) id s.store.positions) x)
            (sym f) (plan-IsSound plan id s.store.positions s.store.fills sound))
  ]

  pub delete-Keeps : (id : Uuid) → Keeps {A = Unit {0}} (delete id)
  delete-Keeps id s sound = elim (delete-outcome id s) [
    | inl same ↦ equal-IsSound s.store (delete id s).1.store same sound
    | inr gone ↦
        subst IsSoundStore (sym gone) (delete-IsSound s.store.positions s.store.fills sound id)
  ]
