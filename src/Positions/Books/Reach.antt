-- ===== src/Positions/Books/Reach.antt =====
-- Runs of the positions service: any sequence of its operations, with any failures.
use crypto_market_advisor.Base.{ℕ, String, ◌≡◌, refl, sym, subst, Bool, true, not, List, []}
use crypto_market_advisor.Numbers.Decimal.{Decimal, nought}
use crypto_market_advisor.Numbers.Laws.{IsDecimal, ◌≺◌}
use crypto_market_advisor.Numbers.Float.{Float, Conversion}
use crypto_market_advisor.Domain.Timeframe.{Time}
use crypto_market_advisor.Domain.Plan.{Uuid, PriceTarget}
use crypto_market_advisor.Domain.FeeType.{FeeType}
use crypto_market_advisor.Domain.Position.{Position, Fill}
use crypto_market_advisor.Pnl.{is_closed}
use crypto_market_advisor.Positions.Store.{Session, guard, position_closed}
use crypto_market_advisor.Positions.Queries.{get, update_plan as store_plan, delete}
use crypto_market_advisor.Positions.Service.{
  FeesConfig, OpenRequest, CloseRequest, requested_size, open_position,
}
use crypto_market_advisor.Positions.View.{view}
use crypto_market_advisor.Positions.Close.{
  record_close, close_position, update_plan, add_fee, add_funding,
}
use crypto_market_advisor.Positions.Ledger.{FitsIfGiven}
use crypto_market_advisor.Positions.Books.Rows.{IsSound, find_position-nil}
use crypto_market_advisor.Positions.Books.Outcomes.{
  view-Reads, add_fee-SameBooks, add_funding-SameBooks,
}
use crypto_market_advisor.Positions.Books.Steps.{
  IsSoundStore, Keeps, >>=-Keeps, Reads-Keeps, store_plan-Keeps, delete-Keeps, same-IsSound,
  record_close-IsSound, open_position-IsSound,
}

module _ {D F : Type 0} ⦃d : Decimal D⦄ ⦃f : Float F⦄ ⦃c : Conversion D F⦄ where
  -- One operation of the service. What the user enters is free, but for two conditions: a known size
  -- is not rounded to zero, and a quantity to close has at most 16 fractional digits.
  pub data Step (s t : Session D F) : Type 0 where
    opens :
        (fees : FeesConfig D) (now : Time) (id fill_id : Uuid) (req : OpenRequest D F)
        → ((requested_size req).size_known ≡ true → nought ≺ (requested_size req).quantity)
        → t ≡ (open_position fees now id fill_id req s).1
        → Step s t
    closes :
        (fees : FeesConfig D) (now : Time) (fill_id : Uuid) (req : CloseRequest D)
        → FitsIfGiven req.quantity
        → t ≡ (close_position fees now fill_id req s).1
        → Step s t
    plans :
        (fees : FeesConfig D) (now : Time) (id : Uuid) (tp sl : List (PriceTarget F))
        (note : String)
        → t ≡ (update_plan fees now id tp sl note s).1
        → Step s t
    fee :
        (now : Time) (id pid : Uuid) (amount : D) (ty : FeeType) (at : Time) (note : String)
        → t ≡ (add_fee now id pid amount ty at note s).1
        → Step s t
    funding :
        (now : Time) (id pid : Uuid) (amount : D) (at : Time) (note : String)
        → t ≡ (add_funding now id pid amount at note s).1
        → Step s t
    deletes : (id : Uuid) → t ≡ (delete id s).1 → Step s t

  -- A sequence of operations. Between two of them the failures to come may be any.
  pub data Reach (s : Session D F) : Session D F → Type 0 where
    here : Reach s s
    next : {t u : Session D F} → Reach s t → Step t u → Reach s u
    weather :
        {t : Session D F} → Reach s t → (fails : ℕ → Bool) → Reach s (record t { fails = fails })

  module _ (laws : IsDecimal D) where
    close_position-Keeps :
        (fees : FeesConfig D) (now : Time) (fill_id : Uuid) (req : CloseRequest D)
        → FitsIfGiven req.quantity
        → Keeps (close_position {F = F} fees now fill_id req)
    unfolding close_position
    close_position-Keeps fees now fill_id req given =
        >>=-Keeps (record_close fees now fill_id req) (λ p. view fees.configured now p.id)
          (λ s. record_close-IsSound laws fees now fill_id req s given)
          (λ p. Reads-Keeps (view fees.configured now p.id) (view-Reads fees.configured now p.id))

    update_plan-Keeps :
        (fees : FeesConfig D) (now : Time) (id : Uuid) (tp sl : List (PriceTarget F))
        (note : String)
        → Keeps (update_plan fees now id tp sl note)
    unfolding update_plan get
    update_plan-Keeps fees now id tp sl note =
        >>=-Keeps (get id) _ (Reads-Keeps {D = D} {F = F} (get id) (λ s. refl)) λ p.
          >>=-Keeps (guard (not (is_closed p.status)) position_closed) _ (λ s h. h)
            λ u.
              >>=-Keeps (store_plan id _ now _) _ (store_plan-Keeps id _ now _)
                λ v. Reads-Keeps (view fees.configured now id) (view-Reads fees.configured now id)

    Step-IsSound : {s t : Session D F} → Step s t → IsSoundStore s.store → IsSoundStore t.store
    Step-IsSound {s} (opens fees now id fill_id req positive e) h =
        subst (λ (x : Session D F). IsSoundStore x.store) (sym e)
          (open_position-IsSound laws fees now id fill_id req s positive h)
    Step-IsSound {s} (closes fees now fill_id req given e) h =
        subst (λ (x : Session D F). IsSoundStore x.store) (sym e)
          (close_position-Keeps fees now fill_id req given s h)
    Step-IsSound {s} (plans fees now id tp sl note e) h =
        subst (λ (x : Session D F). IsSoundStore x.store) (sym e)
          (update_plan-Keeps fees now id tp sl note s h)
    Step-IsSound {s} (fee now id pid amount ty at note e) h =
        subst (λ (x : Session D F). IsSoundStore x.store) (sym e)
          (same-IsSound s.store (add_fee now id pid amount ty at note s).1.store
            (add_fee-SameBooks now id pid amount ty at note s) h)
    Step-IsSound {s} (funding now id pid amount at note e) h =
        subst (λ (x : Session D F). IsSoundStore x.store) (sym e)
          (same-IsSound s.store (add_funding now id pid amount at note s).1.store
            (add_funding-SameBooks now id pid amount at note s) h)
    Step-IsSound {s} (deletes id e) h =
        subst (λ (x : Session D F). IsSoundStore x.store) (sym e) (delete-Keeps id s h)

    reach-IsSound : {s t : Session D F} → Reach s t → IsSoundStore s.store → IsSoundStore t.store
    reach-IsSound here h = h
    reach-IsSound (next r st) h = Step-IsSound st (reach-IsSound r h)
    reach-IsSound (weather r fails) h = reach-IsSound r h

    -- From tables without positions and fills, after any sequence of operations, one request after the
    -- other, with any failures of statements, every fill has its position, and every position of known
    -- size balances with its fills: what is left and what the closing fills took add up to the initial
    -- quantity, something is left exactly while the position is not closed. Conditions on the requests:
    -- a size that is known is not rounded to zero, a quantity to close has at most 16 fractional digits.
    pub run-IsSound :
        {s t : Session D F}
        → s.store.positions ≡ []
        → s.store.fills ≡ []
        → Reach s t
        → IsSoundStore t.store
    run-IsSound {s} p f r = reach-IsSound r (
        subst (λ (x : List (Position D F)). IsSound x s.store.fills) (sym p)
          (subst (λ (x : List (Fill D)). IsSound {D = D} {F = F} [] x) (sym f) empty))
      where
        empty : IsSound {D = D} {F = F} [] []
        empty = record { refers = tt; booked = λ id q h k. absurd (find_position-nil id h) }
