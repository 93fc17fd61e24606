-- ===== src/Positions/Atomic.antt =====
-- A close is written whole or not at all, whichever statements fail.
use crypto_market_advisor.Base.{
  ◌≡◌, refl, inl, inr, false, some, [], ◌∷◌, ◌++◌, arith, Bool-cases, Option-cases,
}
use crypto_market_advisor.Numbers.Decimal.{Decimal}
use crypto_market_advisor.Domain.Timeframe.{Time}
use crypto_market_advisor.Domain.Plan.{Uuid}
use crypto_market_advisor.Domain.Kinds.{PositionEventType}
use crypto_market_advisor.Domain.Position.{Position, Fill, Payload}
use crypto_market_advisor.Pnl.{CloseResult, compute_close, is_closed}
use crypto_market_advisor.Positions.Store.{Store, Session, Error, Result, ok, err, tick, next, pure}
use crypto_market_advisor.Positions.Repository.{
  find_position, stored_fill, closing_update, update_rows, apply_close,
}
use crypto_market_advisor.Positions.Service.{FeesConfig, CloseRequest}
use crypto_market_advisor.Positions.Close.{size_request, settle, record_close}

module _ {D F : Type 0} ⦃d : Decimal D⦄ where
  -- The tables with one close written: the position's row is updated, and a fill and an event are
  -- appended.
  abbrev pub written :
      Position D F → Fill D → PositionEventType → Payload D F → Store D F → Store D F
  written p fill event_type payload s = record s {
    positions = update_rows (closing_update p) p.id s.positions;
    fills = s.fills ++ stored_fill fill ∷ [];
    events =
        s.events
        ++ record {
          position_id = p.id;
          event_type = event_type;
          payload = payload;
          occurred_at = fill.executed_at;
        }
          ∷ [];
  }

  apply_close-ok :
      (p : Position D F) (fill : Fill D) (ty : PositionEventType) (load : Payload D F)
      (s : Session D F)
      → (apply_close p fill ty load s).0 ≡ ok tt
      → (apply_close p fill ty load s).1.store ≡ written p fill ty load s.store
  unfolding apply_close
  apply_close-ok p fill ty load s h = ground arith

  apply_close-err :
      (p : Position D F) (fill : Fill D) (ty : PositionEventType) (load : Payload D F)
      (s : Session D F) {e : Error}
      → (apply_close p fill ty load s).0 ≡ err e
      → (apply_close p fill ty load s).1.store ≡ s.store
  unfolding apply_close
  apply_close-err p fill ty load s h = ground arith

  -- How a session stands after `Close` wrote: on an error the tables are as before; else the position
  -- was there and not closed, had a size to close, and exactly the settlement was written.
  abbrev pub Recorded :
      FeesConfig D
      → (now : Time) → (fill_id : Uuid) → CloseRequest D
      → Store D F
      → Result (Position D F)
      → Store D F
      → Type 0
  Recorded fees now fill_id req before (err e) after = after ≡ before
  Recorded fees now fill_id req before (ok p) after =
      (find_position req.position_id before.positions ≡ some p)
      × (is_closed p.status ≡ false)
      × ((res : CloseResult D) × (compute_close (size_request fees p req) ≡ some res)
          × (let w = settle p req res now fill_id in
              after ≡ written w.updated w.fill w.event_type w.payload before))

  module _ (fees : FeesConfig D) (now : Time) (fill_id : Uuid) (req : CloseRequest D) where
    after_writing :
        (before : Store D F) (p : Position D F) (res : CloseResult D)
        → find_position req.position_id before.positions ≡ some p
        → is_closed p.status ≡ false
        → compute_close (size_request fees p req) ≡ some res
        → (x : Result (Unit {0}) × Session D F)
        → (x.0 ≡ ok tt
            → let w = settle p req res now fill_id in
              x.1.store ≡ written w.updated w.fill w.event_type w.payload before)
        → ((e : Error) → x.0 ≡ err e → x.1.store ≡ before)
        → let y = next (λ _. pure p) x in Recorded fees now fill_id req before y.0 y.1.store
    after_writing before p res e c r (ok u, t) done failed = (e, c, (res, r, done refl))
    after_writing before p res e c r (err x, t) done failed = failed x refl

    -- Whichever statements fail, `Close` either writes nothing or writes the fill, the position's row
    -- and the event of one settlement together.
    pub record_close-Recorded :
        (s : Session D F)
        → Recorded fees now fill_id req s.store
            (record_close fees now fill_id req s).0
            (record_close fees now fill_id req s).1.store
    unfolding record_close
    record_close-Recorded s = elim (Bool-cases (s.fails s.statements)) [
      | inl f ↦ rw f refl
      | inr f ↦ elim (Option-cases (find_position req.position_id s.store.positions)) [
        | inl n ↦ rw (f, n) refl
        | inr (p, e) ↦ elim (Bool-cases (is_closed p.status)) [
          | inl c ↦ rw (f, e, c) refl
          | inr c ↦ elim (Option-cases (compute_close (size_request fees p req))) [
            | inl n ↦ rw (f, e, c, n) refl
            | inr (res, r) ↦
                let w = settle p req res now fill_id in
                rw (f, e, c, r)
                  (after_writing s.store p res e c r
                    (apply_close w.updated w.fill w.event_type w.payload (tick s))
                    (apply_close-ok w.updated w.fill w.event_type w.payload (tick s))
                    (λ x. apply_close-err w.updated w.fill w.event_type w.payload (tick s) {e = x}))
          ]
        ]
      ]
    ]
