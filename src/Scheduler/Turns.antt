-- ===== src/Scheduler/Turns.antt =====
-- backend/internal/scheduler/scheduler.go: the flag `cycleRunning` implements turns.
use crypto_market_advisor.Base.{
  ℕ, String, ◌≡◌, refl, true, false, Option, none, some, List, [], ◌∷◌, if◌then◌else◌, ◌==◌, ◌⊎◌,
  inl, inr, arith, sym, ◌∙◌, ap, ◌≢◌, ℕ_discrete,
}
use crypto_market_advisor.Scheduler.Guard.{
  Scheduler, new_scheduler, enter, leave, request, set_next, observability,
}
use crypto_market_advisor.Domain.Timeframe.{Time}
use crypto_market_advisor.Scheduler.System.{
  System, Phase, Event, Step, Run, before, inside, after, began, ended, skipped, accepted, refused,
  planned, update, initial,
}

-- The specification: at most one call has the turn. One call takes it when nobody has it and gives it back,
-- and another call is turned away only while it is taken. `none` is an event that is not allowed.
unfoldable pub turn : Event → Option ℕ → Option (Option ℕ)
turn (began i) none = some (some i)
turn (began i) (some j) = none
turn (ended i) none = none
turn (ended i) (some j) = if i == j then some none else none
turn (skipped i) none = none
turn (skipped i) (some j) = some (some j)
turn (accepted symbol t) holder = some holder
turn (refused symbol t) holder = some holder
turn (planned t) holder = some holder

unfoldable pub turns : List Event → Option (Option ℕ)
unfolding turn
turns [] = some none
turns (e ∷ es) = elim (turns es) [ none ↦ none | some holder ↦ turn e holder ]

-- The state shows who has the turn: exactly that call is between its sections.
unfoldable pub IsTurnOf : System → Option ℕ → Type 0
unfolding observability
IsTurnOf s none =
    ((observability s.scheduler).cycle_active ≡ false) × ((i : ℕ) → s.calls i ≢ inside)
IsTurnOf s (some j) =
    ((observability s.scheduler).cycle_active ≡ true)
    × (s.calls j ≡ inside)
    × ((i : ℕ) → s.calls i ≡ inside → i ≡ j)

enter-some : (s : Scheduler) {k : Scheduler} → enter s ≡ some k → k.cycle_running ≡ true
unfolding enter
enter-some s h = ground arith

enter-some_free : (s : Scheduler) {k : Scheduler} → enter s ≡ some k → s.cycle_running ≡ false
unfolding enter
enter-some_free s h = ground arith

enter-none : (s : Scheduler) → enter s ≡ none → s.cycle_running ≡ true
unfolding enter
enter-none s h = ground arith

request-some :
    (c : ℕ) (now : Time) (symbol : String) (s : Scheduler) {k : Scheduler}
    → request c now symbol s ≡ some k
    → k.cycle_running ≡ s.cycle_running
unfolding request
request-some c now symbol s h = ground arith

update-at : (f : ℕ → Phase) (i : ℕ) (p : Phase) → update f i p i ≡ p
update-at f i p = ground arith

update_other : (f : ℕ → Phase) (i j : ℕ) (p : Phase) → j ≢ i → update f i p j ≡ f j
update_other f i j p h = ground arith

-- After a call has gone inside, it and whatever was inside before are inside.
update-inside : (f : ℕ → Phase) (i j : ℕ) → update f i inside j ≡ inside → (j ≡ i) ⊎ (f j ≡ inside)
update-inside f i j h = elim (ℕ_discrete i j) [
  | yes e ↦ inl (sym e)
  | no n ↦ inr (sym (update_other f i j inside (λ e. n (sym e))) ∙ h)
]

-- After a call has returned, only the others can be inside.
update-after : (f : ℕ → Phase) (i j : ℕ) → update f i after j ≡ inside → (j ≢ i) × (f j ≡ inside)
update-after f i j h = elim (ℕ_discrete i j) [
  | yes e ↦ absurd (after_out (ap (update f i after) e ∙ h))
  | no n ↦ (λ e. n (sym e), sym (update_other f i j after (λ e. n (sym e))) ∙ h)
]
  where
    after_out : update f i after i ≡ inside → ⊥
    after_out e = cc (update-at f i after)

-- A step that leaves the flag and the calls leaves the turn.
same_turn :
    (s : System) (k : Scheduler) (holder : Option ℕ)
    → k.cycle_running ≡ s.scheduler.cycle_running
    → IsTurnOf s holder
    → IsTurnOf (record { scheduler = k; calls = s.calls }) holder
unfolding IsTurnOf observability
same_turn s k none e (off, out) = (e ∙ off, out)
same_turn s k (some j) e (on, at, only) = (e ∙ on, at, only)

flag_clash : true ≡ false → ⊥
flag_clash h = cc

phase_clash : before ≡ inside → ⊥
phase_clash h = cc

ends_own : (i j : ℕ) → i ≡ j → (i == j) ≡ true
ends_own i j e = ground arith

-- One step of the code is one step of the specification.
moved-IsTurnOf :
    {c : ℕ} {s t : System} {e : Event} (holder : Option ℕ)
    → Step c s e t
    → IsTurnOf s holder
    → (next : Option ℕ) × (turn e holder ≡ some next) × IsTurnOf t next
unfolding turn IsTurnOf enter leave request set_next observability
moved-IsTurnOf {s = s} none (Step.begins i {k = k} b e) (off, out) = (
  some i,
  refl,
  (
    enter-some s.scheduler e,
    update-at s.calls i inside,
    λ j h. elim (update-inside s.calls i j h) [ inl e ↦ e | inr h ↦ absurd (out j h) ],
  ),
)
moved-IsTurnOf {s = s} (some j) (Step.begins i b e) (on, at, only) =
    absurd (flag_clash (sym on ∙ enter-some_free s.scheduler e))
moved-IsTurnOf {s = s} none (Step.skips i b e) (off, out) =
    absurd (flag_clash (sym (enter-none s.scheduler e) ∙ off))
moved-IsTurnOf {s = s} (some j) (Step.skips i b e) (on, at, only) = (
  some j,
  refl,
  (
    on,
    update_other s.calls i j after (λ e. phase_clash (sym b ∙ sym (ap s.calls e) ∙ at)) ∙ at,
    λ h k. only h (update-after s.calls i h k).1,
  ),
)
moved-IsTurnOf none (Step.ends i now b) (off, out) = absurd (out i b)
moved-IsTurnOf {s = s} (some j) (Step.ends i now b) (on, at, only) = (
  none,
  ap (λ b. if b then some none else none) (ends_own i j (only i b)),
  (
    refl,
    λ h k. let (other, in_it) = update-after s.calls i h k in other (only h in_it ∙ sym (only i b)),
  ),
)
moved-IsTurnOf {c = c} {s = s} holder (Step.accepts symbol now {k = k} e) h =
    (holder, refl, same_turn s k holder (request-some c now symbol s.scheduler e) h)
moved-IsTurnOf holder (Step.refuses symbol now e) h = (holder, refl, h)
moved-IsTurnOf {s = s} holder (Step.plans t) h =
    (holder, refl, same_turn s (set_next t s.scheduler) holder refl h)

-- In every run of the scheduler, however the cycles of the loop, the manual requests and the plans
-- interleave, the events follow the specification of turns, and the state shows whose turn it is: the
-- status says that a cycle runs exactly if one call of RunCycle is between its sections, and then it is the
-- only one.
pub run-IsTurnOf :
    (cooldown : ℕ) (es : List Event) (s : System)
    → Run cooldown es s
    → (holder : Option ℕ) × (turns es ≡ some holder) × IsTurnOf s holder
unfolding turns initial new_scheduler IsTurnOf observability
run-IsTurnOf c es s Run.start = (none, refl, (refl, λ i h. cc))
run-IsTurnOf c es s (Run.later {es = es'} {e = e} r step) =
    let (holder, so_far, h) = run-IsTurnOf c es' _ r in
    let (next, moved, k) = moved-IsTurnOf holder step h in (next, rw so_far moved, k)
