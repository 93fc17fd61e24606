-- ===== src/Llm/Sorted.antt =====
-- backend/internal/llm/validate.go: `sortTargets` orders levels the way they will be hit.
use mathlib.Core.List.Permᴰ
use mathlib.Core.List.{Permᴰ}
use crypto_market_advisor.Base.{
  refl, ◌++◌, if_elim, ◌≡◌, true, false, List, [], ◌∷◌, arith, Bool-cases, inl, inr,
}
use crypto_market_advisor.Numbers.Float.{Float}
use crypto_market_advisor.Domain.Direction
use crypto_market_advisor.Domain.Direction.{Direction, long, short, other}
use crypto_market_advisor.Domain.Plan.{PriceTarget}
use crypto_market_advisor.Llm.Problems.{Field, take_profit, stop_loss}
use crypto_market_advisor.Llm.Targets.{reverse_onto, swaps, move_left, sort_from, sort_targets}

-- `<` of floats is asymmetric, for NaN too.
abbrev pub IsAsymmetric : {F : Type 0} → Float F → Type 0
IsAsymmetric {F} f = (a b : F) → f.lt a b ≡ true → f.lt b a ≡ false

module _ {F : Type 0} ⦃f : Float F⦄ where
  -- The order in which the price reaches two levels: the targets of a long position and the stops of a short
  -- one do not fall, the others do not rise. A direction that is neither counts as short.
  abbrev pub Follows : Direction → Field → (earlier later : F) → Type 0
  Follows long take_profit a b = f.lt b a ≡ false
  Follows long stop_loss a b = f.lt a b ≡ false
  Follows short take_profit a b = f.lt a b ≡ false
  Follows short stop_loss a b = f.lt b a ≡ false
  Follows (other s) take_profit a b = f.lt a b ≡ false
  Follows (other s) stop_loss a b = f.lt b a ≡ false

  swaps-Follows :
      (direction : Direction) (field : Field) (a b : PriceTarget F)
      → swaps direction field a b ≡ false
      → Follows direction field a.price b.price
  unfolding swaps Direction.is_long
  swaps-Follows long take_profit a b h = h
  swaps-Follows long stop_loss a b h = h
  swaps-Follows short take_profit a b h = h
  swaps-Follows short stop_loss a b h = h
  swaps-Follows (other s) take_profit a b h = h
  swaps-Follows (other s) stop_loss a b h = h

module _ {A : Type 0} where
  reverse_onto-perm : (xs ys : List A) → Permᴰ (reverse_onto xs ys) (xs ++ ys)
  reverse_onto-perm [] ys = Permᴰ.refl ys
  reverse_onto-perm (x ∷ xs) ys = Permᴰ.trans (reverse_onto-perm xs (x ∷ ys)) (Permᴰ.middle x xs ys)

module _ {F : Type 0} ⦃f : Float F⦄ (direction : Direction) (field : Field) where
  -- No neighbours are to be exchanged.
  abbrev IsStable : List (PriceTarget F) → Type 0
  IsStable [] = Unit
  IsStable (a ∷ []) = Unit
  IsStable (a ∷ b ∷ ts) = (swaps direction field a b ≡ false) × IsStable (b ∷ ts)

  -- Each level follows the one before it.
  abbrev pub IsOrdered : List (PriceTarget F) → Type 0
  IsOrdered [] = Unit
  IsOrdered (a ∷ []) = Unit
  IsOrdered (a ∷ b ∷ ts) = Follows direction field a.price b.price × IsOrdered (b ∷ ts)

  stable-IsOrdered : (ts : List (PriceTarget F)) → IsStable ts → IsOrdered ts
  stable-IsOrdered [] h = tt
  stable-IsOrdered (a ∷ []) h = tt
  stable-IsOrdered (a ∷ b ∷ ts) (h, hs) =
      (swaps-Follows direction field a b h, stable-IsOrdered (b ∷ ts) hs)

  move_left-perm :
      (t : PriceTarget F) (us : List (PriceTarget F))
      → Permᴰ (move_left direction field t us) (t ∷ us)
  unfolding move_left
  move_left-perm t [] = Permᴰ.refl (t ∷ [])
  move_left-perm t (u ∷ us) =
      if_elim (λ l. Permᴰ l (t ∷ u ∷ us)) (swaps direction field u t)
        (Permᴰ.trans (Permᴰ.cons refl (move_left-perm t us)) (Permᴰ.swap refl refl))
        (Permᴰ.refl (t ∷ u ∷ us))

  sort_from-perm :
      (left right : List (PriceTarget F))
      → Permᴰ (sort_from direction field left right) (left ++ right)
  unfolding sort_from
  sort_from-perm left [] = reverse_onto-perm left []
  sort_from-perm left (t ∷ ts) =
      Permᴰ.trans (sort_from-perm (move_left direction field t left) ts) (
        Permᴰ.trans (Permᴰ.append_right ts (move_left-perm t left))
          (Permᴰ.symm (Permᴰ.middle t left ts)))

  -- The same of a list that is given from the right.
  abbrev IsStableBack : List (PriceTarget F) → Type 0
  IsStableBack [] = Unit
  IsStableBack (a ∷ []) = Unit
  IsStableBack (a ∷ b ∷ ts) = (swaps direction field b a ≡ false) × IsStableBack (b ∷ ts)

module _ {F : Type 0} ⦃f : Float F⦄ (asym : IsAsymmetric f) (direction : Direction)
    (field : Field) where
  swaps-asym :
      (a b : PriceTarget F) → swaps direction field a b ≡ true → swaps direction field b a ≡ false
  unfolding swaps
  swaps-asym a b h = ground (arith, asym a.price b.price, asym b.price a.price)

  move_left-IsStableBack :
      (t : PriceTarget F) (us : List (PriceTarget F))
      → IsStableBack direction field us
      → IsStableBack direction field (move_left direction field t us)
  unfolding move_left
  move_left-IsStableBack t [] h = tt
  move_left-IsStableBack t (u ∷ []) h = elim (Bool-cases (swaps direction field u t)) [
    | inl e ↦ rw e (swaps-asym u t e, tt)
    | inr e ↦ rw e (e, tt)
  ]
  move_left-IsStableBack t (u ∷ v ∷ us) (h, hs) =
      let rest = move_left-IsStableBack t (v ∷ us) hs in
      elim (Bool-cases (swaps direction field u t)) [
        | inr e ↦ rw e (e, (h, hs))
        | inl e ↦ elim (Bool-cases (swaps direction field v t)) [
          | inl k ↦ rw (e, k) (h, (rw k at rest))
          | inr k ↦ rw (e, k) (swaps-asym u t e, (k, hs))
        ]
      ]

  -- The last of a list from the right goes before the first of another.
  abbrev Joins : List (PriceTarget F) → List (PriceTarget F) → Type 0
  Joins (a ∷ as') (b ∷ bs) = swaps direction field a b ≡ false
  Joins _ _ = Unit

  reverse_onto-IsStable :
      (left right : List (PriceTarget F))
      → IsStableBack direction field left
      → IsStable direction field right
      → Joins left right
      → IsStable direction field (reverse_onto left right)
  reverse_onto-IsStable [] right h k j = k
  reverse_onto-IsStable (a ∷ []) [] h k j = tt
  reverse_onto-IsStable (a ∷ []) (b ∷ bs) h k j = (j, k)
  reverse_onto-IsStable (a ∷ c ∷ as') [] (h, hs) k j =
      reverse_onto-IsStable (c ∷ as') (a ∷ []) hs tt h
  reverse_onto-IsStable (a ∷ c ∷ as') (b ∷ bs) (h, hs) k j =
      reverse_onto-IsStable (c ∷ as') (a ∷ b ∷ bs) hs (j, k) h

  sort_from-IsStable :
      (left right : List (PriceTarget F))
      → IsStableBack direction field left
      → IsStable direction field (sort_from direction field left right)
  unfolding sort_from
  sort_from-IsStable [] [] h = tt
  sort_from-IsStable (a ∷ left) [] h = reverse_onto-IsStable (a ∷ left) [] h tt tt
  sort_from-IsStable left (t ∷ ts) h =
      sort_from-IsStable (move_left direction field t left) ts (move_left-IsStableBack t left h)

  -- `sortTargets` keeps every level and puts them into the order in which the price reaches them: the
  -- targets of a long position and the stops of a short one do not fall from one to the next, the others do
  -- not rise. It asks of the floats only that `<` is asymmetric.
  pub sort_targets-IsOrdered :
      (ts : List (PriceTarget F))
      → IsOrdered direction field (sort_targets direction field ts)
        × Permᴰ (sort_targets direction field ts) ts
  unfolding sort_targets
  sort_targets-IsOrdered ts = (
    stable-IsOrdered direction field _ (sort_from-IsStable [] ts tt),
    sort_from-perm direction field [] ts,
  )
