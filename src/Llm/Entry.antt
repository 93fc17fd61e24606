-- ===== src/Llm/Entry.antt =====
-- backend/internal/llm/validate.go: `validateEntry` and `validateEntryAction`. Go's strings.TrimSpace and
-- strings.ToLower after it are arguments.
use text.Mathlib.Text.{◌==◌ as str_eq}
use crypto_market_advisor.Base.{
  String, Bool, true, false, not, ◌&&◌, if◌then◌else◌, Option, none, some, List, [], ◌∷◌, ◌++◌,
  is_none,
}
use crypto_market_advisor.Numbers.Float.{Float, int, is_finite}
use crypto_market_advisor.Domain.Direction
use crypto_market_advisor.Domain.Direction.{Direction}
use crypto_market_advisor.Domain.Plan.{PriceTarget}
use crypto_market_advisor.Llm.Problems.{
  take_profit, stop_loss, Problem, preferred_min_invalid, preferred_max_invalid, zone_reversed,
  zone_far, levels_required, ValidationContext, TargetJson, EntryJson, EntryPlan,
}
use crypto_market_advisor.Llm.Targets.{validate_targets}

-- What `validateEntryAction` writes into the answer, and the problems that it adds.
pub record EntryAction (F : Type 0) : Type 0 where
  pub entry : EntryPlan F
  pub targets : List (PriceTarget F)
  pub stops : List (PriceTarget F)
  pub problems : List (Problem F)

abbrev or_market : String → String
or_market s = if str_eq s "" then "market" else s

module _ {A : Type 0} where
  abbrev pub no_levels : List A → Bool
  no_levels [] = true
  no_levels (x ∷ xs) = false

  abbrev pub kept_if : Bool → Option A → Option A
  kept_if true o = o
  kept_if false o = none

module _ {F : Type 0} where
  abbrev pub plan_of : (type : String) → (price : F) → (low high : Option F) → EntryPlan F
  plan_of type price low high = record {
    type = type;
    current_price = price;
    preferred_min = low;
    preferred_max = high;
  }

module _ {F : Type 0} ⦃f : Float F⦄ where
  abbrev pub is_price : Option F → Bool
  is_price none = false
  is_price (some p) = is_finite p && f.lt (int 0) p

  -- `*e.PreferredMin > *e.PreferredMax`
  abbrev pub exceeds : Option F → Option F → Bool
  exceeds (some a) (some b) = f.lt b a
  exceeds _ _ = false

  -- The check of one bound against the current price.
  abbrev far_from : (reference : F) → Option F → List (Problem F)
  far_from reference none = []
  far_from reference (some p) =
      if f.lt (f.lit 15 2) (f.div (f.abs (f.sub p reference)) reference)
      then zone_far p reference ∷ []
      else []

  -- The part of `validateEntry` for an entry that is given.
  unfoldable pub check_zone :
      ValidationContext F → (type : String) → (low high : Option F) → EntryPlan F × List (Problem F)
  check_zone ctx type low high =
      let given =
        (if not (is_none low) && not (is_price low) then preferred_min_invalid ∷ [] else [])
        ++ (if not (is_none high) && not (is_price high) then preferred_max_invalid ∷ [] else []) in
      if is_price low && is_price high && exceeds low high
      then (plan_of type ctx.reference_price none none, given ++ (zone_reversed ∷ []))
      else let a = kept_if (is_price low) low in
        let b = kept_if (is_price high) high in
        (
          plan_of type ctx.reference_price a b,
          given
              ++ (if f.lt (int 0) ctx.reference_price
                  then far_from ctx.reference_price a ++ far_from ctx.reference_price b
                  else []),
        )

  unfoldable pub validate_entry :
      (lower : String → String)
      → Option (EntryJson F)
      → ValidationContext F
      → EntryPlan F × List (Problem F)
  unfolding check_zone
  validate_entry lower none ctx = (plan_of "market" ctx.reference_price none none, [])
  validate_entry lower (some e) ctx =
      check_zone ctx (or_market (lower e.type)) e.preferred_min e.preferred_max

  abbrev pub or_price : Option F → F → F
  or_price none reference = reference
  or_price (some p) reference = p

  -- The price that targets and stops are compared with: the bound of the entry zone that is nearer to
  -- the targets, where it is given.
  unfoldable pub entry_reference : EntryPlan F → Direction → (reference : F) → F
  unfolding Direction.is_long Direction.is_short
  entry_reference plan direction reference =
      if Direction.is_long direction
      then or_price plan.preferred_max reference
      else if Direction.is_short direction
      then or_price plan.preferred_min reference
      else reference

  unfoldable pub validate_entry_action :
      (trim lower : String → String)
      → Option (EntryJson F)
      → (tp sl : List (TargetJson F)) → ValidationContext F
      → Direction
      → EntryAction F
  unfolding validate_entry entry_reference validate_targets
  validate_entry_action trim lower entry tp sl ctx direction =
      let (plan, zone) = validate_entry lower entry ctx in
      let reference = entry_reference plan direction ctx.reference_price in
      let (targets, tp_problems) = validate_targets trim take_profit direction reference ctx tp in
      let (stops, sl_problems) = validate_targets trim stop_loss direction reference ctx sl in
      record {
        entry = plan;
        targets = targets;
        stops = stops;
        problems =
            zone
            ++ tp_problems
            ++ sl_problems
            ++ (if no_levels targets then levels_required take_profit ∷ [] else [])
            ++ (if no_levels stops then levels_required stop_loss ∷ [] else []);
      }
