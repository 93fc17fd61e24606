-- ===== src/Positions/Store.antt =====
-- The tables of a session with the database, and statements that may fail.
use crypto_market_advisor.Base.{ℕ, suc, String, Bool, Option, none, some, List, if◌then◌else◌}
use crypto_market_advisor.Domain.Market.{Asset}
use crypto_market_advisor.Domain.Plan.{Decision}
use crypto_market_advisor.Domain.Position.{Position, Fill, PositionEvent, CashEvent}

-- Rows stand in the order of their insertion.
pub record Store (D F : Type 0) : Type 0 where
  pub assets : List Asset
  -- The latest price of an asset, if there is a snapshot of its market.
  pub prices : ℕ → Option F
  pub positions : List (Position D F)
  pub fills : List (Fill D)
  pub events : List (PositionEvent D F)
  pub fee_events : List (CashEvent D)
  pub funding_events : List (CashEvent D)
  pub decisions : List Decision

-- `fails n` says that statement number n fails, for whatever reason: a lost connection, a timeout, a
-- constraint that is not modelled, a value that cannot be encoded. `upper` is SQL's UPPER.
pub record Session (D F : Type 0) : Type 0 where
  pub store : Store D F
  pub fails : ℕ → Bool
  pub statements : ℕ
  pub upper : String → String

pub data Error : Type 0 where
  not_found db_failure unknown_asset position_closed no_close_size : Error

pub data Result (A : Type 0) : Type 0 where
  ok : A → Result A
  err : Error → Result A

abbrev pub Db : (D F A : Type 0) → Type 0
Db D F A = Session D F → Result A × Session D F

-- What a query found; `none` is ErrNoRows.
abbrev pub found : {A : Type 0} → Option A → Result A
found none = err not_found
found (some a) = ok a

module _ {D F : Type 0} where
  abbrev pub pure : {A : Type 0} → A → Db D F A
  pure a s = (ok a, s)

  abbrev pub throw : {A : Type 0} → Error → Db D F A
  throw e s = (err e, s)

  abbrev pub next :
      {A B : Type 0} → (A → Db D F B) → Result A × Session D F → Result B × Session D F
  next f (ok a, s) = f a s
  next f (err e, s) = (err e, s)

  infixl 5 ◌>>=◌ ◌>>◌
  abbrev pub ◌>>=◌ : {A B : Type 0} → Db D F A → (A → Db D F B) → Db D F B
  ◌>>=◌ m f s = next f (m s)

  abbrev pub ◌>>◌ : {B : Type 0} → Db D F (Unit {0}) → Db D F B → Db D F B
  ◌>>◌ m k s = next (λ _. k) (m s)

  -- An error is logged and dropped.
  abbrev pub attempt : Db D F (Unit {0}) → Db D F (Unit {0})
  attempt m s = (ok tt, (m s).1)

  abbrev pub guard : Bool → Error → Db D F (Unit {0})
  guard b e s = (if b then ok tt else err e, s)

  abbrev pub tick : Session D F → Session D F
  tick s = record s { statements = suc s.statements }

  -- A statement that changes the tables; `none` is a violated constraint.
  abbrev pub applied : Session D F → Option (Store D F) → Result (Unit {0}) × Session D F
  applied s none = (err db_failure, s)
  applied s (some store) = (ok tt, record s { store = store })

  abbrev pub exec : (Store D F → Option (Store D F)) → Db D F (Unit {0})
  exec change s =
      if s.fails s.statements then (err db_failure, tick s) else applied (tick s) (change s.store)

  -- A statement that reads.
  abbrev pub query : {A : Type 0} → (Store D F → Result A) → Db D F A
  query read s = (if s.fails s.statements then err db_failure else read s.store, tick s)

  -- The end of a transaction: an error of the body or of COMMIT restores the tables.
  abbrev pub finish : {A : Type 0} → Store D F → Result A × Session D F → Result A × Session D F
  finish before (err e, s) = (err e, record s { store = before })
  finish before (ok a, s) =
      if s.fails s.statements
      then (err db_failure, record (tick s) { store = before })
      else (ok a, tick s)

  -- `inTx`: BEGIN, the body, COMMIT or ROLLBACK.
  abbrev pub in_tx : {A : Type 0} → Db D F A → Db D F A
  in_tx body s =
      if s.fails s.statements then (err db_failure, tick s) else finish s.store (body (tick s))
