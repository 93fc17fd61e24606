-- ===== src/Llm/Accepted.antt =====
-- backend/internal/llm/validate.go: what is true of an entry that is accepted.
use crypto_market_advisor.Base.{
  String, ◌≡◌, refl, subst, inl, inr, false, ◌&&◌, if◌then◌else◌, Option, none, some, List, [], ◌∷◌,
  ◌++◌, All, arith, Bool-cases,
}
use crypto_market_advisor.Numbers.Float.{Float}
use crypto_market_advisor.Domain.Direction
use crypto_market_advisor.Domain.Direction.{Direction, long, short, other}
use crypto_market_advisor.Llm.Problems.{
  levels_required, take_profit, stop_loss, ValidationContext, TargetJson, EntryJson, EntryPlan,
}
use crypto_market_advisor.Llm.Targets.{validate_targets}
use crypto_market_advisor.Llm.Levels.{IsLevel, validate_targets-IsLevel}
use crypto_market_advisor.Llm.Entry.{
  or_price, no_levels, kept_if, is_price, exceeds, validate_entry, entry_reference,
  validate_entry_action,
}

append-nil_inv : {A : Type 0} (xs ys : List A) → xs ++ ys ≡ [] → (xs ≡ []) × (ys ≡ [])
append-nil_inv [] ys h = (refl, h)
append-nil_inv (x ∷ xs) ys h = cc

some-levels :
    {A P : Type 0} (xs : List A) (p : P)
    → (if no_levels xs then p ∷ [] else []) ≡ []
    → no_levels xs ≡ false
some-levels [] p h = cc
some-levels (x ∷ xs) p h = refl

module _ {F : Type 0} ⦃f : Float F⦄ where
  kept-ordered :
      (low high : Option F)
      → (is_price low && is_price high && exceeds low high) ≡ false
      → exceeds (kept_if (is_price low) low) (kept_if (is_price high) high) ≡ false
  kept-ordered none none h = refl
  kept-ordered none (some b) h = refl
  kept-ordered (some a) none h = ground arith
  kept-ordered (some a) (some b) h = ground arith

  -- The bounds of an entry zone are in order.
  zone-ordered :
      (lower : String → String) (e : Option (EntryJson F)) (ctx : ValidationContext F)
      → let plan = (validate_entry lower e ctx).0 in
        exceeds plan.preferred_min plan.preferred_max ≡ false
  unfolding validate_entry
  zone-ordered lower none ctx = refl
  zone-ordered lower (some e) ctx =
      elim (Bool-cases (
        is_price e.preferred_min
        && is_price e.preferred_max
        && exceeds e.preferred_min e.preferred_max)) [
          | inl h ↦ rw h refl
          | inr h ↦ rw h (kept-ordered e.preferred_min e.preferred_max h)
        ]

  -- The bound of the entry zone on the side of the targets, or the reference price if it is not given.
  abbrev pub nearer_bound : EntryPlan F → Direction → (reference : F) → F
  nearer_bound plan long reference = or_price plan.preferred_max reference
  nearer_bound plan short reference = or_price plan.preferred_min reference
  nearer_bound plan (other s) reference = reference

  entry_reference-nearer :
      (plan : EntryPlan F) (direction : Direction) (reference : F)
      → entry_reference plan direction reference ≡ nearer_bound plan direction reference
  unfolding entry_reference Direction.is_long Direction.is_short
  entry_reference-nearer plan long reference = refl
  entry_reference-nearer plan short reference = refl
  entry_reference-nearer plan (other s) reference = refl

  module _ (trim lower : String → String) (entry : Option (EntryJson F))
      (tp sl : List (TargetJson F)) (ctx : ValidationContext F) (direction : Direction) where
    -- An entry that `validateEntryAction` finds no problem in has a target and a stop, all of them
    -- levels on their side of the reference price, which is the upper bound of
    -- the entry zone for a long position and the lower one for a short position, where that is given, and the
    -- bounds of the zone are in order.
    pub validate_entry_action-IsLevel :
        (validate_entry_action trim lower entry tp sl ctx direction).problems ≡ []
        → let r = validate_entry_action trim lower entry tp sl ctx direction in
          let reference = nearer_bound r.entry direction ctx.reference_price in
          (no_levels r.targets ≡ false)
          × (no_levels r.stops ≡ false)
          × All (IsLevel trim take_profit direction reference) r.targets
          × All (IsLevel trim stop_loss direction reference) r.stops
          × (exceeds r.entry.preferred_min r.entry.preferred_max ≡ false)
    unfolding validate_entry_action
    validate_entry_action-IsLevel h =
        let (plan, zone) = validate_entry lower entry ctx in
        let reference = entry_reference plan direction ctx.reference_price in
        let (targets, tp_problems) = validate_targets trim take_profit direction reference ctx tp in
        let (stops, sl_problems) = validate_targets trim stop_loss direction reference ctx sl in
        let same = entry_reference-nearer plan direction ctx.reference_price in
        let (h1, hs) =
          append-nil_inv _ (if no_levels stops then levels_required stop_loss ∷ [] else []) h in
        let (_, ht) =
          append-nil_inv _ (if no_levels targets then levels_required take_profit ∷ [] else [])
            h1 in
        (
          some-levels targets _ ht,
          some-levels stops _ hs,
          subst (λ x. All (IsLevel trim take_profit direction x) targets) same
              (validate_targets-IsLevel trim take_profit direction reference ctx tp),
          subst (λ x. All (IsLevel trim stop_loss direction x) stops) same
              (validate_targets-IsLevel trim stop_loss direction reference ctx sl),
          zone-ordered lower entry ctx,
        )
