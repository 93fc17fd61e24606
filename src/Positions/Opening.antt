-- ===== src/Positions/Opening.antt =====
-- Opening a position is written whole or not at all, whichever statements fail.
use crypto_market_advisor.Base.{
  String, ◌≡◌, refl, ap, ◌∙◌, subst, inl, inr, false, Option, none, some, List, [], ◌∷◌, ◌++◌,
  arith, Bool-cases, Option-cases,
}
use crypto_market_advisor.Numbers.Decimal.{Decimal}
use crypto_market_advisor.Domain.Timeframe.{Time}
use crypto_market_advisor.Domain.Market.{Asset}
use crypto_market_advisor.Domain.Plan.{Uuid, Decision}
use crypto_market_advisor.Domain.Kinds.{opened}
use crypto_market_advisor.Domain.Position.{Position, Fill, opening}
use crypto_market_advisor.Positions.Store.{Store, Session, Error, Result, ok, err, tick, next, pure}
use crypto_market_advisor.Positions.Repository.{has_position, stored, stored_fill, create}
use crypto_market_advisor.Positions.Queries.{find_asset, set_decision, upsert}
use crypto_market_advisor.Positions.Service.{
  FeesConfig, OpenRequest, requested_size, new_position, opening_fill, open_position, link,
  opened_decision,
}

module _ {D F : Type 0} ⦃d : Decimal D⦄ where
  -- The tables with a new position: its row, its opening fill and its event are appended.
  abbrev pub with_position : Position D F → Fill D → Store D F → Store D F
  with_position p fill s = record s {
    positions = s.positions ++ stored p ∷ [];
    fills = s.fills ++ stored_fill fill ∷ [];
    events =
        s.events
        ++ record {
          position_id = p.id;
          event_type = opened;
          payload = opening p.entry_price p.leverage p.direction;
          occurred_at = p.opened_at;
        }
          ∷ [];
  }

  create-ok :
      (p : Position D F) (fill : Fill D) (s : Session D F)
      → (create p fill s).0 ≡ ok tt
      → (has_position p.id s.store ≡ false)
        × ((create p fill s).1.store ≡ with_position p fill s.store)
  unfolding create
  create-ok p fill s h = ground arith

  create-err :
      (p : Position D F) (fill : Fill D) (s : Session D F) {e : Error}
      → (create p fill s).0 ≡ err e
      → (create p fill s).1.store ≡ s.store
  unfolding create
  create-err p fill s h = ground arith

  -- Linking a recommendation writes its decision or nothing.
  link-store :
      (r : Option Uuid) (id : Uuid) (now : Time) (s : Session D F)
      → ((link r id now s).0 ≡ ok tt)
        × ((ds : List Decision) × ((link r id now s).1.store ≡ record s.store { decisions = ds }))
  unfolding set_decision
  link-store none id now s = (refl, (s.store.decisions, refl))
  link-store (some r) id now s = elim (Bool-cases (s.fails s.statements)) [
    | inl f ↦ (refl, (s.store.decisions, rw f refl))
    | inr f ↦ (refl, (upsert (opened_decision r id now) s.store.decisions, rw f refl))
  ]

  module _ (fees : FeesConfig D) (now : Time) (id fill_id : Uuid) (req : OpenRequest D F) where
    -- How a session stands after `Open`: on an error the tables are as before; else the asset is known,
    -- the id was new, and exactly the new position, its fill and its event were written, besides at
    -- most the decision on the recommendation.
    abbrev pub Opened : (String → String) → Store D F → Result (Position D F) → Store D F → Type 0
    Opened upper before (err e) after = after ≡ before
    Opened upper before (ok p) after =
        (asset : Asset) × (find_asset upper req.symbol before.assets ≡ some asset)
        × (p ≡ new_position req asset (requested_size req) now id)
        × (has_position id before ≡ false)
        × ((ds : List Decision) × (after
              ≡ record (with_position p (opening_fill fees req (requested_size req) p fill_id)
                  before) { decisions = ds }))

    module _ (upper : String → String) (before : Store D F) (asset : Asset)
        (a : find_asset upper req.symbol before.assets ≡ some asset) (p : Position D F)
        (e : p ≡ new_position req asset (requested_size req) now id) (i : p.id ≡ id) where
      abbrev wrote : Store D F
      wrote = with_position p (opening_fill fees req (requested_size req) p fill_id) before

      after_link :
          (ds : List Decision) (st : Store D F)
          → has_position p.id before ≡ false
          → st ≡ wrote
          → (z : Result (Unit {0}) × Session D F) → z.0 ≡ ok tt
          → z.1.store ≡ record st { decisions = ds }
          → let y = next (λ _. pure p) z in Opened upper before y.0 y.1.store
      after_link ds st fresh same (ok u, t) l s = (
        asset,
        a,
        e,
        subst (λ k. has_position k before ≡ false) i fresh,
        (ds, s ∙ ap (λ (x : Store D F). record x { decisions = ds }) same),
      )
      after_link ds st fresh same (err x, t) l s = cc

      after_create :
          (x : Result (Unit {0}) × Session D F)
          → (x.0 ≡ ok tt → (has_position p.id before ≡ false) × (x.1.store ≡ wrote))
          → ((z : Error) → x.0 ≡ err z → x.1.store ≡ before)
          → let y = next (λ _ t. next (λ _. pure p) (link req.recommendation_id p.id now t)) x in
            Opened upper before y.0 y.1.store
      after_create (err z, t) done failed = failed z refl
      after_create (ok u, t) done failed =
          let (fresh, same) = done refl in
          let (linked, (ds, left)) = link-store req.recommendation_id p.id now t in
          after_link ds t.store fresh same (link req.recommendation_id p.id now t) linked left

    new_position-id : (asset : Asset) → (new_position req asset (requested_size req) now id).id ≡ id
    unfolding new_position
    new_position-id asset = refl

    -- Whichever statements fail, `Open` either writes nothing or all of a new position.
    pub open_position-Opened :
        (s : Session D F)
        → Opened s.upper s.store
            (open_position fees now id fill_id req s).0
            (open_position fees now id fill_id req s).1.store
    unfolding open_position
    open_position-Opened s = elim (Bool-cases (s.fails s.statements)) [
      | inl f ↦ rw f refl
      | inr f ↦ elim (Option-cases (find_asset s.upper req.symbol s.store.assets)) [
        | inl n ↦ rw (f, n) refl
        | inr (asset, e) ↦
            let p : Position D F = new_position req asset (requested_size req) now id in
            let fill : Fill D = opening_fill fees req (requested_size req) p fill_id in
            rw (f, e)
              (after_create s.upper s.store asset e p refl (new_position-id asset)
                (create p fill (tick s)) (create-ok p fill (tick s))
                (λ x. create-err p fill (tick s) {e = x}))
      ]
    ]
