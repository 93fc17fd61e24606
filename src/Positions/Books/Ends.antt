-- ===== src/Positions/Books/Ends.antt =====
-- A new position and a deletion keep the tables sound.
use crypto_market_advisor.Base.{
  ◌≡◌, sym, ap, ◌∙◌, subst, inl, inr, true, not, none, some, List, [], ◌∷◌, ◌++◌, arith, Bool-cases,
  ◌==◌, ==→≡, ==_refl, select, All, All-append,
}
use crypto_market_advisor.Numbers.Decimal.{Decimal}
use crypto_market_advisor.Domain.Plan.{Uuid}
use crypto_market_advisor.Domain.Position.{Position, Fill}
use crypto_market_advisor.Positions.Repository.{find_position, fills_of}
use crypto_market_advisor.Positions.Ledger.{IsBooked}
use crypto_market_advisor.Positions.Books.Rows.{
  Refers, IsSound, find_position-append, find_position-delete, fills_of-delete, fills_of-append,
  fills_of-missing,
}

module _ {D F : Type 0} where
  Refers-append :
      (ps : List (Position D F)) (p : Position D F) (fs : List (Fill D))
      → All (Refers ps) fs
      → All (Refers (ps ++ p ∷ [])) fs
  Refers-append ps p [] r = tt
  Refers-append ps p (f ∷ fs) (h, r) =
      (λ n. h (ground (arith, find_position-append f.position_id ps p, n)), Refers-append ps p fs r)

  Refers-delete :
      (id : Uuid) (ps : List (Position D F)) (fs : List (Fill D))
      → All (Refers ps) fs
      → All
          (Refers (select (λ p. not (p.id == id)) ps))
          (select (λ f. not (f.position_id == id)) fs)
  Refers-delete id ps [] r = tt
  Refers-delete id ps (f ∷ fs) (h, r) =
      let rest = Refers-delete id ps fs r in
      elim (Bool-cases (f.position_id == id)) [
        | inl e ↦ rw e rest
        | inr e ↦
            rw e (λ n. h (ground (arith, find_position-delete id f.position_id ps, n, e)), rest)
      ]

module _ {D F : Type 0} ⦃d : Decimal D⦄ (ps : List (Position D F)) (fs : List (Fill D))
    (s : IsSound ps fs) where
  -- A new position that balances with its opening fill keeps the tables sound.
  pub new-IsSound :
      (p : Position D F) (f : Fill D)
      → find_position p.id ps ≡ none
      → f.position_id ≡ p.id
      → (p.size_known ≡ true → IsBooked p (f ∷ []))
      → IsSound (ps ++ p ∷ []) (fs ++ f ∷ [])
  new-IsSound p f new own first = record {
    refers =
        All-append (Refers (ps ++ p ∷ [])) fs (f ∷ []) (Refers-append ps p fs s.refers)
          (λ n. ground (arith, find_position-append f.position_id ps p, own, n, ==_refl p.id), tt);
    booked = booked;
  }
    where
      booked :
          (j : Uuid) (q : Position D F)
          → find_position j (ps ++ p ∷ []) ≡ some q
          → q.size_known ≡ true
          → IsBooked q (fills_of j (fs ++ f ∷ []))
      booked j q h known = elim (Bool-cases (p.id == j)) [
        | inl i ↦
            let missing : find_position j ps ≡ none =
              subst (λ k. find_position k ps ≡ none) (==→≡ p.id j i) new in
            let to : p ≡ q = ground (arith, find_position-append j ps p, missing, h, i) in
            let none_before : fills_of j fs ≡ [] = fills_of-missing j ps fs s.refers missing in
            let only : fills_of j (fs ++ f ∷ []) ≡ f ∷ [] =
              ground (arith, fills_of-append j fs f, own, i, none_before) in
            subst (IsBooked q) (sym only) (
              subst (λ x. IsBooked x (f ∷ [])) to
                (first (ap (λ (x : Position D F). x.size_known) to ∙ known)))
        | inr i ↦
            let before : find_position j ps ≡ some q =
              ground (arith, find_position-append j ps p, h, i) in
            let same : fills_of j (fs ++ f ∷ []) ≡ fills_of j fs =
              ground (arith, fills_of-append j fs f, own, i) in
            subst (IsBooked q) (sym same) (s.booked j q before known)
      ]

  -- Deleting a position with its fills keeps the tables sound.
  pub delete-IsSound :
      (id : Uuid)
      → IsSound (select (λ p. not (p.id == id)) ps) (select (λ f. not (f.position_id == id)) fs)
  delete-IsSound id = record { refers = Refers-delete id ps fs s.refers; booked = booked }
    where
      booked :
          (j : Uuid) (q : Position D F)
          → find_position j (select (λ p. not (p.id == id)) ps) ≡ some q
          → q.size_known ≡ true
          → IsBooked q (fills_of j (select (λ f. not (f.position_id == id)) fs))
      booked j q h known = elim (Bool-cases (j == id)) [
        | inl i ↦ absurd (ground (arith, find_position-delete id j ps, h, i))
        | inr i ↦
            let before : find_position j ps ≡ some q =
              ground (arith, find_position-delete id j ps, h, i) in
            let same : fills_of j (select (λ f. not (f.position_id == id)) fs) ≡ fills_of j fs =
              ground (arith, fills_of-delete id j fs, i) in
            subst (IsBooked q) (sym same) (s.booked j q before known)
      ]
