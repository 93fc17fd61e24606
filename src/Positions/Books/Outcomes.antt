-- ===== src/Positions/Books/Outcomes.antt =====
-- What each operation of the service may do to the tables of positions and fills.
use crypto_market_advisor.Base.{String, ◌≡◌, refl, ◌∙◌, ◌⊎◌, Bool, Option, none, some, arith}
use crypto_market_advisor.Numbers.Decimal.{Decimal}
use crypto_market_advisor.Numbers.Float.{Float, Conversion}
use crypto_market_advisor.Domain.Timeframe.{Time}
use crypto_market_advisor.Domain.Plan.{Uuid, TradePlan}
use crypto_market_advisor.Domain.FeeType.{FeeType}
use crypto_market_advisor.Domain.Kinds.{PositionEventType}
use crypto_market_advisor.Domain.Position.{Position, CashEvent, Payload}
use crypto_market_advisor.Positions.Store.{Store, Session, Result, ok, err, Db, next, ◌>>=◌, query}
use crypto_market_advisor.Positions.Repository.{update_rows}
use crypto_market_advisor.Positions.Queries.{
  get, fills, events, fee_entries, funding_entries, update_plan as store_plan, add_cash_event,
  delete, without,
}
use crypto_market_advisor.Positions.View.{current_price, build_view, view}
use crypto_market_advisor.Positions.Close.{add_fee, add_funding}

module _ {D F : Type 0} where
  -- The tables of positions and fills are the same.
  abbrev pub SameBooks : Store D F → Store D F → Type 0
  SameBooks s t = (t.positions ≡ s.positions) × (t.fills ≡ s.fills)

  pub store_plan-outcome :
      (id : Uuid) (plan : TradePlan F) (now : Time) (load : Payload D F) (s : Session D F)
      → let t = (store_plan id plan now load s).1.store in
        SameBooks s.store t
        ⊎ ((t.positions
              ≡ update_rows (λ p. record p { current_plan = some plan }) id s.store.positions)
            × (t.fills ≡ s.store.fills))
  unfolding store_plan
  store_plan-outcome id plan now load s = ground arith

  pub delete-outcome :
      (id : Uuid) (s : Session D F)
      → ((delete id s).1.store ≡ s.store) ⊎ ((delete id s).1.store ≡ without id s.store)
  unfolding delete
  delete-outcome id s = ground arith

  pub cash-SameBooks :
      (insert : Store D F → Store D F) (e : CashEvent D) (ty : PositionEventType) (s : Session D F)
      → SameBooks s.store (insert s.store)
      → SameBooks s.store (add_cash_event insert e ty s).1.store
  unfolding add_cash_event
  cash-SameBooks insert e ty s same = ground arith

  -- A sequence of statements that only reads.
  abbrev pub Reads : {A : Type 0} → Db D F A → Type 0
  Reads m = (s : Session D F) → (m s).1.store ≡ s.store

  pub query-Reads : {A : Type 0} (read : Store D F → Result A) → Reads (query read)
  query-Reads read s = refl

  next-Reads :
      {A B : Type 0} (f : A → Db D F B)
      → ((a : A) → Reads (f a))
      → (x : Result A × Session D F) → (next f x).1.store ≡ x.1.store
  next-Reads f r (ok a, t) = r a t
  next-Reads f r (err e, t) = refl

  pub >>=-Reads :
      {A B : Type 0} (m : Db D F A) (f : A → Db D F B)
      → Reads m
      → ((a : A) → Reads (f a))
      → Reads (m >>= f)
  >>=-Reads m f h k s = next-Reads f k (m s) ∙ h s

module _ {D F : Type 0} ⦃d : Decimal D⦄ where
  pub add_fee-SameBooks :
      (now : Time) (id pid : Uuid) (amount : D) (ty : FeeType) (at : Time) (note : String)
      (s : Session D F)
      → SameBooks s.store (add_fee now id pid amount ty at note s).1.store
  unfolding add_fee
  add_fee-SameBooks now id pid amount ty at note s = ground arith

  pub add_funding-SameBooks :
      (now : Time) (id pid : Uuid) (amount : D) (at : Time) (note : String) (s : Session D F)
      → SameBooks s.store (add_funding now id pid amount at note s).1.store
  unfolding add_funding
  add_funding-SameBooks now id pid amount at note s = ground arith

  module _ ⦃f : Float F⦄ ⦃c : Conversion D F⦄ where
    current_price-Reads : (p : Position D F) (price : Option D) → Reads (current_price p price)
    unfolding current_price
    current_price-Reads p (some x) s = refl
    current_price-Reads p none s = ground arith

    build_view-Reads :
        (configured : Bool) (now : Time) (p : Position D F) (price : Option D)
        → Reads (build_view configured now p price)
    unfolding build_view
    build_view-Reads configured now p price =
        >>=-Reads (fills p.id) _ (λ s. refl)
          λ fs.
            >>=-Reads (events p.id) _ (λ s. refl)
              λ es.
                >>=-Reads (fee_entries p.id) _ (λ s. refl)
                  λ fees.
                    >>=-Reads (funding_entries p.id) _ (λ s. refl)
                      λ funding.
                        >>=-Reads (current_price p price) _ (current_price-Reads p price)
                          λ at s. refl

    -- Assembling a view changes no table.
    pub view-Reads :
        (configured : Bool) (now : Time) (id : Uuid)
        → Reads (view {D = D} {F = F} configured now id)
    unfolding view
    view-Reads configured now id =
        >>=-Reads (get id) _ (λ s. refl) λ p. build_view-Reads configured now p none
