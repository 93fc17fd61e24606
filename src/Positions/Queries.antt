-- ===== src/Positions/Queries.antt =====
-- backend/internal/repository/positions.go: the other methods, and the statements of assets.go,
-- market.go and recommendations.go that the positions service sends.
use text.Mathlib.Text.{◌==◌ as str_eq}
use crypto_market_advisor.Base.{
  ℕ, Bool, true, not, ◌&&◌, if◌then◌else◌, String, Option, none, some, List, [], ◌∷◌, ◌++◌, ◌==◌,
  select,
}
use crypto_market_advisor.Domain.Timeframe.{Time}
use crypto_market_advisor.Domain.Market.{Asset}
use crypto_market_advisor.Domain.Plan.{Uuid, TradePlan, Decision}
use crypto_market_advisor.Domain.Kinds.{PositionEventType, plan_updated}
use crypto_market_advisor.Domain.Position.{
  Position, Fill, PositionEvent, CashEvent, Payload, paying,
}
use crypto_market_advisor.Pnl.{is_closed}
use crypto_market_advisor.Positions.Store.{
  Store, ok, err, not_found, db_failure, Db, found, tick, ◌>>◌, exec, query, in_tx,
}
use crypto_market_advisor.Positions.Repository.{
  find_position, fills_of, events_of, cash_of, has_position, update_rows, insert_event, encode,
  sort_by,
}

unfoldable pub find_asset : (String → String) → String → List Asset → Option Asset
find_asset upper symbol [] = none
find_asset upper symbol (a ∷ as') =
    let rest = find_asset upper symbol as' in
    if str_eq (upper a.symbol) (upper symbol) then some a else rest

-- `Recommendations.SetDecision`: one row for a recommendation.
unfoldable pub upsert : Decision → List Decision → List Decision
upsert d [] = d ∷ []
upsert d (e ∷ es) =
    let rest = upsert d es in
    if e.recommendation_id == d.recommendation_id then d ∷ es else e ∷ rest

module _ {D F : Type 0} where
  unfoldable pub get : Uuid → Db D F (Position D F)
  unfolding find_position
  get id = query (λ s. found (find_position id s.positions))

  -- `List` with its ORDER BY opened_at DESC.
  unfoldable pub list_positions : Bool → Option ℕ → Db D F (List (Position D F))
  unfolding sort_by
  list_positions only_open asset_id =
      query (λ s. ok (rev (sort_by (λ p. p.opened_at) (rev (select wanted s.positions)))))
    where
      of_asset : Option ℕ → Position D F → Bool
      of_asset none p = true
      of_asset (some a) p = p.asset_id == a

      wanted : Position D F → Bool
      wanted p = (if only_open then not (is_closed p.status) else true) && of_asset asset_id p

      rev_onto : List (Position D F) → List (Position D F) → List (Position D F)
      rev_onto acc [] = acc
      rev_onto acc (p ∷ ps) = rev_onto (p ∷ acc) ps

      rev : List (Position D F) → List (Position D F)
      rev = rev_onto []

  unfoldable pub fills : Uuid → Db D F (List (Fill D))
  unfolding sort_by
  fills id = query (λ s. ok (sort_by (λ f. f.executed_at) (fills_of id s.fills)))

  unfoldable pub events : Uuid → Db D F (List (PositionEvent D F))
  unfolding sort_by
  events id = query (λ s. ok (sort_by (λ e. e.occurred_at) (events_of id s.events)))

  -- `CashEvents` of the two tables that it supports.
  unfoldable pub fee_entries : Uuid → Db D F (List (CashEvent D))
  unfolding sort_by
  fee_entries id = query (λ s. ok (sort_by (λ e. e.occurred_at) (cash_of id s.fee_events)))

  unfoldable pub funding_entries : Uuid → Db D F (List (CashEvent D))
  unfolding sort_by
  funding_entries id = query (λ s. ok (sort_by (λ e. e.occurred_at) (cash_of id s.funding_events)))

  -- `UpdatePlan`: the number of affected rows is zero if the position is not there.
  unfoldable pub update_plan : Uuid → TradePlan F → Time → Payload D F → Db D F (Unit {0})
  unfolding update_rows find_position
  update_plan id plan now payload = do
    encode
    in_tx (do
      exec (λ s. some (record s {
        positions = update_rows (λ p. record p { current_plan = some plan }) id s.positions;
      }))
      affected id
      exec (
          insert_event (record {
            position_id = id;
            event_type = plan_updated;
            payload = payload;
            occurred_at = now;
          })))
    where
      affected : Uuid → Db D F (Unit {0})
      affected i s = (if has_position i s.store then ok tt else err not_found, s)

  -- INSERT INTO fee_events and funding_events: `position_id` refers to a position.
  abbrev pub with_fee : CashEvent D → Store D F → Store D F
  with_fee e s = record s { fee_events = s.fee_events ++ e ∷ [] }

  abbrev pub with_funding : CashEvent D → Store D F → Store D F
  with_funding e s = record s { funding_events = s.funding_events ++ e ∷ [] }

  -- `AddCashEvent`, by the INSERT that the table's name chooses.
  unfoldable pub add_cash_event :
      (Store D F → Store D F) → CashEvent D → PositionEventType → Db D F (Unit {0})
  unfolding find_position
  add_cash_event insert e event_type = in_tx (do
    exec (λ s. if has_position e.position_id s then some (insert s) else none)
    exec (
        insert_event (record {
          position_id = e.position_id;
          event_type = event_type;
          payload = paying e.amount e.note;
          occurred_at = e.occurred_at;
        })))

  -- DELETE FROM positions; the rows of the other tables go with it (ON DELETE CASCADE).
  abbrev pub without : Uuid → Store D F → Store D F
  without id s = record s {
    positions = select (λ p. not (p.id == id)) s.positions;
    fills = select (λ f. not (f.position_id == id)) s.fills;
    events = select (λ e. not (e.position_id == id)) s.events;
    fee_events = select (λ e. not (e.position_id == id)) s.fee_events;
    funding_events = select (λ e. not (e.position_id == id)) s.funding_events;
  }

  unfoldable pub delete : Uuid → Db D F (Unit {0})
  unfolding find_position
  delete id s =
      if s.fails s.statements
      then (err db_failure, tick s)
      else if has_position id s.store
      then (ok tt, record (tick s) { store = without id s.store })
      else (err not_found, tick s)

  -- `Assets.GetBySymbol`
  unfoldable pub get_by_symbol : String → Db D F Asset
  unfolding find_asset
  get_by_symbol symbol s = query (λ t. found (find_asset s.upper symbol t.assets)) s

  -- `Market.Latest`: of the snapshot, its price.
  unfoldable pub latest : ℕ → Db D F F
  latest asset_id = query (λ s. found (s.prices asset_id))

  unfoldable pub set_decision : Decision → Db D F (Unit {0})
  unfolding upsert
  set_decision d = exec (λ s. some (record s { decisions = upsert d s.decisions }))
