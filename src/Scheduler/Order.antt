-- ===== src/Scheduler/Order.antt =====
-- backend/internal/scheduler/scheduler.go: the order in which a cycle takes the assets, and what a cycle
-- leaves.
use mathlib.Core.List.Permᴰ
use mathlib.Core.List.{Permᴰ}
use crypto_market_advisor.Base.{
  ℕ, suc, ◌≡◌, ◌≢◌, refl, sym, ap, ◌∙◌, Bool, true, false, not, ◌&&◌, inl, inr, Bool-cases, Option,
  none, some, List, [], ◌∷◌, ◌++◌, append_assoc, append-nil, select, if◌then◌else◌,
}
use crypto_market_advisor.Domain.Timeframe.{Time}
use crypto_market_advisor.Domain.Market.{Asset}
use crypto_market_advisor.Domain.Position.{Position}
use crypto_market_advisor.Domain.Recommendation.{Recommendation}
use crypto_market_advisor.Scheduler.Guard.{Scheduler, enter, leave}
use crypto_market_advisor.Scheduler.Queue.{
  Priorities, is_strong_signal, with_position, place, place_all, in_order, prioritise, launched,
  cycle_body, run_cycle,
}

-- The lists of `place`, by the answers of its two tests.
placed : (held strong : Bool) → Asset → Priorities → Priorities
placed held strong a q =
    if held
    then record q { priority1 = q.priority1 ++ (a ∷ []) }
    else if strong
    then record q { priority2 = q.priority2 ++ (a ∷ []) }
    else record q { priority3 = q.priority3 ++ (a ∷ []) }

unfoldable kept : Bool → Asset → List Asset → List Asset
kept b a rest = if b then a ∷ rest else rest

join : (first second third : List Asset) → Priorities → Priorities
join first second third q = record {
  priority1 = q.priority1 ++ first;
  priority2 = q.priority2 ++ second;
  priority3 = q.priority3 ++ third;
}

join-placed :
    (held strong : Bool) (a : Asset) (first second third : List Asset) (q : Priorities)
    → join first second third (placed held strong a q)
      ≡ join
          (kept held a first)
          (kept (not held && strong) a second)
          (kept (not held && not strong) a third)
          q
unfolding join placed kept
join-placed true strong a first second third q =
    ap
      (λ l. record {
        priority1 = l;
        priority2 = q.priority2 ++ second;
        priority3 = q.priority3 ++ third;
      })
      (append_assoc q.priority1 (a ∷ []) first)
join-placed false true a first second third q =
    ap
      (λ l. record {
        priority1 = q.priority1 ++ first;
        priority2 = l;
        priority3 = q.priority3 ++ third;
      })
      (append_assoc q.priority2 (a ∷ []) second)
join-placed false false a first second third q =
    ap
      (λ l. record {
        priority1 = q.priority1 ++ first;
        priority2 = q.priority2 ++ second;
        priority3 = l;
      })
      (append_assoc q.priority3 (a ∷ []) third)

kept_perm :
    (held strong : Bool) (a : Asset) (first second third : List Asset) {rest : List Asset}
    → Permᴰ (first ++ (second ++ third)) rest
    → Permᴰ
        (kept held a first
          ++ (kept (not held && strong) a second ++ kept (not held && not strong) a third))
        (a ∷ rest)
unfolding kept
kept_perm true strong a first second third p = Permᴰ.cons refl p
kept_perm false true a first second third p =
    Permᴰ.trans (Permᴰ.middle a first (second ++ third)) (Permᴰ.cons refl p)
kept_perm false false a first second third p =
    Permᴰ.trans (Permᴰ.append_left first (Permᴰ.middle a second third))
      (Permᴰ.trans (Permᴰ.middle a first (second ++ third)) (Permᴰ.cons refl p))

module _ (held strong : ℕ → Bool) where
  abbrev pub is_first : Asset → Bool
  is_first a = held a.id

  abbrev pub is_second : Asset → Bool
  is_second a = not (held a.id) && strong a.id

  abbrev pub is_third : Asset → Bool
  is_third a = not (held a.id) && not (strong a.id)

  -- The assets that are held, those with a signal, and the others, each in the given order.
  abbrev pub by_urgency : List Asset → List Asset
  by_urgency assets = select is_first assets ++ (select is_second assets ++ select is_third assets)

  place_all-join :
      (assets : List Asset) (q : Priorities)
      → place_all held strong assets q
        ≡ join (select is_first assets) (select is_second assets) (select is_third assets) q
  unfolding place_all join place placed kept
  place_all-join [] q = sym (
      ap
        (λ l. record {
          priority1 = l;
          priority2 = q.priority2 ++ [];
          priority3 = q.priority3 ++ [];
        })
        (append-nil q.priority1)
      ∙ ap (λ l. record { priority1 = q.priority1; priority2 = l; priority3 = q.priority3 ++ [] })
          (append-nil q.priority2)
      ∙ ap (λ l. record { priority1 = q.priority1; priority2 = q.priority2; priority3 = l })
          (append-nil q.priority3))
  place_all-join (a ∷ rest) q =
      place_all-join rest (place held strong a q)
      ∙ join-placed (held a.id) (strong a.id) a (select is_first rest) (select is_second rest)
          (select is_third rest) q

  by_urgency-perm : (assets : List Asset) → Permᴰ (by_urgency assets) assets
  unfolding kept
  by_urgency-perm [] = Permᴰ.nil
  by_urgency-perm (a ∷ rest) =
      kept_perm (held a.id) (strong a.id) a (select is_first rest) (select is_second rest)
        (select is_third rest) (by_urgency-perm rest)

abbrev no_priorities : Priorities
no_priorities = record { priority1 = []; priority2 = []; priority3 = [] }

-- When both queries succeed, a cycle takes every enabled asset exactly once: first those with an open
-- position, then those with a recent strong signal, then the others, and within the three in the order in
-- which they were listed.
pub prioritise_lem :
    {D F : Type 0} (now : Time) (assets : List Asset) (positions : List (Position D F))
    (latest : ℕ → Option (Recommendation D F))
    → (prioritise now (some assets) (some positions) latest
        ≡ some
            (by_urgency (with_position positions) (λ id. is_strong_signal now (latest id)) assets))
      × Permᴰ
          (by_urgency (with_position positions) (λ id. is_strong_signal now (latest id)) assets)
          assets
unfolding prioritise in_order join
prioritise_lem now assets positions latest =
    let held = with_position positions in
    let strong = λ (id : ℕ). is_strong_signal now (latest id) in
    let first = select (is_first held strong) assets in
    (
      ap some (
          ap in_order (place_all-join held strong assets no_priorities)
          ∙ append_assoc first (select (is_second held strong) assets)
              (select (is_third held strong) assets)),
      by_urgency-perm held strong assets,
    )

-- The assets of a result; an error has none.
abbrev pub listed : Option (List Asset) → List Asset
listed none = []
listed (some assets) = assets

-- The assets that are not started.
launched-left :
    (done acquired : ℕ → Bool) (i : ℕ) (assets : List Asset)
    → (left : List Asset) × (launched done acquired i assets ++ left ≡ assets)
unfolding launched
launched-left done acquired i [] = ([], refl)
launched-left done acquired i (a ∷ rest) =
    let (left, whole) = launched-left done acquired (suc i) rest in
    elim (Bool-cases (done i)) [
      | inl d ↦ (a ∷ rest, rw d refl)
      | inr d ↦ elim (Bool-cases (acquired i)) [
        | inl e ↦ (left, rw (d, e) (ap (λ l. a ∷ l) whole))
        | inr e ↦ (a ∷ rest, rw (d, e) refl)
      ]
    ]

cycle_body-left :
    (done acquired : ℕ → Bool) (prioritised : Option (List Asset))
    → (left : List Asset) × ((cycle_body done acquired prioritised).0 ++ left ≡ listed prioritised)
unfolding cycle_body
cycle_body-left done acquired none = ([], refl)
cycle_body-left done acquired (some []) = ([], refl)
cycle_body-left done acquired (some (a ∷ rest)) = launched-left done acquired 0 (a ∷ rest)

-- A call of RunCycle on a free scheduler ends with its analyses started in the order of the queue, up to
-- some asset, and leaves the scheduler ready for the next call and the time of the end in it: whatever the
-- queries returned, wherever the context was cancelled, and whichever slots were refused.
pub run_cycle-IsReady :
    (done acquired : ℕ → Bool) (prioritised : Option (List Asset)) (ended : Time) (s : Scheduler)
    → s.cycle_running ≡ false
    → ((left : List Asset) × ((run_cycle done acquired prioritised ended s).analysed ++ left
          ≡ listed prioritised))
      × (enter (run_cycle done acquired prioritised ended s).scheduler ≢ none)
      × ((run_cycle done acquired prioritised ended s).scheduler.last_cycle ≡ ended)
unfolding run_cycle enter leave
run_cycle-IsReady done acquired prioritised ended s free =
    rw free (cycle_body-left done acquired prioritised, (λ h. cc), refl)
