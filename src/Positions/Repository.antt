-- ===== src/Positions/Repository.antt =====
-- backend/internal/repository/positions.go, with the statements of assets.go, market.go and
-- recommendations.go that the positions service sends. The SQL of a statement is a function on the
-- tables. Encoding a plan as JSON may fail, as a statement may.
use mathlib.Core.Option
use crypto_market_advisor.Base.{
  ℕ, Bool, true, false, if◌then◌else◌, Option, none, some, List, [], ◌∷◌, ◌++◌, ◌==◌, ltb, select,
}
use crypto_market_advisor.Numbers.Decimal.{Decimal}
use crypto_market_advisor.Domain.Plan.{Uuid}
use crypto_market_advisor.Domain.Kinds.{PositionEventType, opened}
use crypto_market_advisor.Domain.Position.{
  Position, Fill, PositionEvent, CashEvent, Payload, opening,
}
use crypto_market_advisor.Positions.Store.{Store, Db, ◌>>◌, exec, in_tx}

-- ORDER BY a time, earliest first; rows of one time stay in their order.
module _ {A : Type 0} (key : A → ℕ) where
  unfoldable pub insert_by : A → List A → List A
  insert_by a [] = a ∷ []
  insert_by a (b ∷ bs) =
      let rest = insert_by a bs in if ltb (key b) (key a) then b ∷ rest else a ∷ b ∷ bs

  unfoldable pub sort_by : List A → List A
  sort_by [] = []
  sort_by (a ∷ as') = insert_by a (sort_by as')

module _ {D : Type 0} where
  abbrev pub fills_of : Uuid → List (Fill D) → List (Fill D)
  fills_of id = select (λ f. f.position_id == id)

  abbrev pub cash_of : Uuid → List (CashEvent D) → List (CashEvent D)
  cash_of id = select (λ e. e.position_id == id)

  abbrev pub stored_fill : ⦃d : Decimal D⦄ → Fill D → Fill D
  stored_fill ⦃d⦄ f = record f {
    quantity = Option.map d.numeric f.quantity;
    close_pct = Option.map d.numeric f.close_pct;
    price = d.numeric f.price;
    fee = d.numeric f.fee;
    realized_pnl = d.numeric f.realized_pnl;
  }

module _ {D F : Type 0} where
  abbrev pub of_position : Uuid → Position D F → Bool
  of_position id p = p.id == id

  -- The first row with a key.
  unfoldable pub find_position : Uuid → List (Position D F) → Option (Position D F)
  find_position id [] = none
  find_position id (p ∷ ps) = let rest = find_position id ps in if p.id == id then some p else rest

  abbrev pub events_of : Uuid → List (PositionEvent D F) → List (PositionEvent D F)
  events_of id = select (λ e. e.position_id == id)

  abbrev pub has_position : Uuid → Store D F → Bool
  has_position id s = elim (find_position id s.positions) [ none ↦ false | some p ↦ true ]

  -- INSERT INTO position_events: `position_id` refers to a position.
  abbrev pub insert_event : PositionEvent D F → Store D F → Option (Store D F)
  insert_event e s =
      if has_position e.position_id s then some (record s { events = s.events ++ e ∷ [] }) else none

  -- Encoding a plan.
  abbrev pub encode : Db D F (Unit {0})
  encode = exec some

  -- UPDATE positions … WHERE id = $1
  unfoldable pub update_rows :
      (Position D F → Position D F) → Uuid → List (Position D F) → List (Position D F)
  update_rows change id [] = []
  update_rows change id (p ∷ ps) = (if p.id == id then change p else p) ∷ update_rows change id ps

module _ {D F : Type 0} ⦃d : Decimal D⦄ where
  -- A position as its row keeps it.
  abbrev pub stored : Position D F → Position D F
  stored p = record p {
    entry_price = d.numeric p.entry_price;
    leverage = d.numeric p.leverage;
    initial_quantity = Option.map d.numeric p.initial_quantity;
    remaining_quantity = Option.map d.numeric p.remaining_quantity;
    initial_notional = Option.map d.numeric p.initial_notional;
    initial_margin = Option.map d.numeric p.initial_margin;
  }

  -- INSERT INTO positions: `id` is the primary key.
  abbrev pub insert_position : Position D F → Store D F → Option (Store D F)
  insert_position p s =
      if has_position p.id s
      then none
      else some (record s { positions = s.positions ++ stored p ∷ [] })

  -- INSERT INTO position_fills: `position_id` refers to a position.
  abbrev pub insert_fill : Fill D → Store D F → Option (Store D F)
  insert_fill f s =
      if has_position f.position_id s
      then some (record s { fills = s.fills ++ stored_fill f ∷ [] })
      else none

  -- What UPDATE in `ApplyClose` writes into a row.
  abbrev pub closing_update : Position D F → Position D F → Position D F
  closing_update p row = record row {
    status = p.status;
    remaining_quantity = Option.map d.numeric p.remaining_quantity;
    closed_at = p.closed_at;
    current_plan = p.current_plan;
  }

  unfoldable pub create : Position D F → Fill D → Db D F (Unit {0})
  unfolding find_position
  create p fill = do
    encode
    encode
    in_tx (do
      exec (insert_position p)
      exec (insert_fill fill)
      exec (
          insert_event (record {
            position_id = p.id;
            event_type = opened;
            payload = opening p.entry_price p.leverage p.direction;
            occurred_at = p.opened_at;
          })))

  unfoldable pub apply_close :
      Position D F → Fill D → PositionEventType → Payload D F → Db D F (Unit {0})
  unfolding find_position update_rows
  apply_close p fill event_type payload = do
    encode
    in_tx (do
      exec (insert_fill fill)
      exec (λ s. some (record s { positions = update_rows (closing_update p) p.id s.positions }))
      exec (
          insert_event (record {
            position_id = p.id;
            event_type = event_type;
            payload = payload;
            occurred_at = fill.executed_at;
          })))
