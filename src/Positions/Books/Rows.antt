-- ===== src/Positions/Books/Rows.antt =====
-- Rows of the tables of positions and fills under the statements that change them.
use mathlib.Core.Option
use crypto_market_advisor.Base.{
  ◌≡◌, ◌≢◌, refl, sym, subst, inl, inr, true, not, if◌then◌else◌, none, some, List, [], ◌∷◌, ◌++◌,
  arith, Bool-cases, ◌==◌, ==→≡, select, All,
}
use crypto_market_advisor.Numbers.Decimal.{Decimal}
use crypto_market_advisor.Domain.Plan.{Uuid}
use crypto_market_advisor.Domain.Position.{Position, Fill}
use crypto_market_advisor.Positions.Repository.{find_position, fills_of, update_rows}
use crypto_market_advisor.Positions.Ledger.{IsBooked}

module _ {D F : Type 0} where
  -- The id of a fill's position is the id of a row.
  abbrev pub Refers : List (Position D F) → Fill D → Type 0
  Refers ps f = find_position f.position_id ps ≢ none

  pub find_position-id :
      (id : Uuid) (ps : List (Position D F)) {p : Position D F}
      → find_position id ps ≡ some p
      → p.id ≡ id
  unfolding find_position
  find_position-id id [] h = cc
  find_position-id id (q ∷ ps) h = elim (Bool-cases (q.id == id)) [
    | inl e ↦ ground (arith, e, h)
    | inr e ↦ find_position-id id ps (rw e at h)
  ]

  pub find_position-nil : (id : Uuid) {p : Position D F} → find_position id [] ≢ some p
  unfolding find_position
  find_position-nil id h = cc

  pub find_position-update :
      (change : Position D F → Position D F)
      → ((p : Position D F) → (change p).id ≡ p.id)
      → (id j : Uuid) (ps : List (Position D F))
      → find_position j (update_rows change id ps)
        ≡ (if j == id then Option.map change (find_position j ps) else find_position j ps)
  unfolding find_position update_rows
  find_position-update change same id j [] = ground arith
  find_position-update change same id j (p ∷ ps) =
      ground (arith, same p, find_position-update change same id j ps)

  pub find_position-append :
      (j : Uuid) (ps : List (Position D F)) (p : Position D F)
      → find_position j (ps ++ p ∷ []) ≡ (elim (find_position j ps) [
        | some q ↦ some q
        | none ↦ if p.id == j then some p else none
      ])
  unfolding find_position
  find_position-append j [] p = refl
  find_position-append j (q ∷ ps) p = ground (arith, find_position-append j ps p)

  pub find_position-delete :
      (id j : Uuid) (ps : List (Position D F))
      → find_position j (select (λ p. not (p.id == id)) ps)
        ≡ (if j == id then none else find_position j ps)
  unfolding find_position
  find_position-delete id j [] = ground arith
  find_position-delete id j (p ∷ ps) = ground (arith, find_position-delete id j ps)

module _ {D : Type 0} where
  pub fills_of-delete :
      (id j : Uuid) (fs : List (Fill D))
      → fills_of j (select (λ f. not (f.position_id == id)) fs)
        ≡ (if j == id then [] else fills_of j fs)
  fills_of-delete id j [] = ground arith
  fills_of-delete id j (f ∷ fs) = ground (arith, fills_of-delete id j fs)

  pub fills_of-append :
      (j : Uuid) (fs : List (Fill D)) (f : Fill D)
      → fills_of j (fs ++ f ∷ [])
        ≡ (if f.position_id == j then fills_of j fs ++ f ∷ [] else fills_of j fs)
  fills_of-append j [] f = ground arith
  fills_of-append j (g ∷ fs) f = ground (arith, fills_of-append j fs f)

module _ {D F : Type 0} where
  -- A position that is not there has no fills.
  pub fills_of-missing :
      (id : Uuid) (ps : List (Position D F)) (fs : List (Fill D))
      → All (Refers ps) fs
      → find_position id ps ≡ none
      → fills_of id fs ≡ []
  fills_of-missing id ps [] r n = refl
  fills_of-missing id ps (f ∷ fs) (h, r) n =
      let rest = fills_of-missing id ps fs r n in
      elim (Bool-cases (f.position_id == id)) [
        | inl e ↦ absurd (h (subst (λ k. find_position k ps ≡ none) (sym (==→≡ _ _ e)) n))
        | inr e ↦ rw e rest
      ]

-- The tables of positions and fills: each fill has its position, and each position of known size
-- balances with its fills.
pub record IsSound {D F : Type 0} ⦃d : Decimal D⦄ (ps : List (Position D F)) (fs : List (Fill D))
    : Type 0 where
  pub refers : All (Refers ps) fs
  pub booked :
      (id : Uuid) (p : Position D F)
      → find_position id ps ≡ some p
      → p.size_known ≡ true
      → IsBooked p (fills_of id fs)
