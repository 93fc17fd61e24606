-- ===== src/Positions/View.antt =====
-- backend/internal/positions/service.go: assembling what the user sees of a position.
use crypto_market_advisor.Base.{ℕ, Bool, if◌then◌else◌, Option, none, some, List, [], ◌∷◌}
use crypto_market_advisor.Base.Int.{ℤ, pos, sub_ℕ, quot_ℤ}
use crypto_market_advisor.Numbers.Decimal.{Decimal}
use crypto_market_advisor.Numbers.Float.{Float, Conversion, int}
use crypto_market_advisor.Domain.Timeframe.{Time, minute}
use crypto_market_advisor.Domain.Plan.{Uuid}
use crypto_market_advisor.Domain.Kinds.{still_open}
use crypto_market_advisor.Domain.Position.{
  Position, Fill, CashEvent, PositionEvent, PositionView, PnL,
}
use crypto_market_advisor.Pnl.{compute, classify, is_closed}
use crypto_market_advisor.Positions.Store.{Session, Result, ok, err, Db, pure, ◌>>=◌}
use crypto_market_advisor.Positions.Queries.{
  get, latest, fills, events, fee_entries, funding_entries,
}

module _ {D F : Type 0} ⦃d : Decimal D⦄ ⦃f : Float F⦄ ⦃c : Conversion D F⦄ where
  -- The age in whole minutes; the program goes through a float of minutes.
  abbrev pub age_minutes : Position D F → Time → ℤ
  age_minutes p now = quot_ℤ (sub_ℕ (end p.closed_at) p.opened_at) (pos minute)
    where
      end : Option Time → Time
      end none = now
      end (some t) = t

  -- A price that is positive, as a decimal.
  abbrev pub usable : F → Option D
  usable price = if f.lt (int 0) price then some (c.to_decimal price) else none

  -- The price that the caller gives, or the latest one; an error leaves it unknown.
  unfoldable pub current_price : Position D F → Option D → Db D F (Option D)
  unfolding latest
  current_price p (some price) s = (ok (some price), s)
  current_price p none s = known (latest p.asset_id s)
    where
      known : Result F × Session D F → Result (Option D) × Session D F
      known (ok price, t) = (ok (usable price), t)
      known (err e, t) = (ok none, t)

  -- The view of a position with its history at hand.
  unfoldable pub view_of :
      Bool
      → Time
      → Position D F
      → List (Fill D)
      → List (PositionEvent D F)
      → List (CashEvent D)
      → List (CashEvent D)
      → Option D
      → PositionView D F
  unfolding compute classify quot_ℤ
  view_of configured now p fs es fees funding price =
      let result : PnL D = compute (record {
        position = p;
        fills = fs;
        fees = fees;
        funding = funding;
        current_price = price;
        fees_configured = configured;
      }) in
      record {
        position = p;
        fills = fs;
        events = es;
        fee_events = fees;
        funding_events = funding;
        current_price = elim price [ none ↦ none | some x ↦ some (c.to_float x) ];
        pnl = result;
        age_minutes = age_minutes p now;
        result = if is_closed p.status then classify result.net_realized else still_open;
      }

  unfoldable pub build_view : Bool → Time → Position D F → Option D → Db D F (PositionView D F)
  unfolding fills events fee_entries funding_entries current_price view_of
  build_view configured now p price = do
    fs ← fills p.id
    es ← events p.id
    fees ← fee_entries p.id
    funding ← funding_entries p.id
    at ← current_price p price
    pure (view_of configured now p fs es fees funding at)

  unfoldable pub view : Bool → Time → Uuid → Db D F (PositionView D F)
  unfolding get build_view
  view configured now id = do p ← get id; build_view configured now p none

  -- The loop of `List`; the prices by asset come from `LatestForAll`.
  unfoldable pub build_views :
      Bool → Time → (ℕ → Option F) → List (Position D F) → Db D F (List (PositionView D F))
  unfolding build_view
  build_views configured now prices [] = pure []
  build_views configured now prices (p ∷ ps) =
      let rest = build_views configured now prices ps in
      (do
        v ←
            build_view configured now p
              (elim (prices p.asset_id) [ none ↦ none | some x ↦ usable x ])
        vs ← rest
        pure (v ∷ vs))
