-- ===== src/Scheduler/Cooldown.antt =====
-- backend/internal/scheduler/scheduler.go: the cooldown between the manual analyses of a symbol.
use text.Mathlib.Text.{◌==◌ as str_eq}
use text.Mathlib.TextEquality.{eq_iff}
use crypto_market_advisor.Base.{
  ℕ, ◌+◌, ◌≤◌, String, ◌≡◌, refl, sym, ◌∙◌, ap, subst, some, List, [], ◌∷◌, if◌then◌else◌, inl, inr,
  Bool-cases, All, arith,
}
use crypto_market_advisor.Domain.Timeframe.{Time}
use crypto_market_advisor.Scheduler.Guard.{Scheduler, enter, leave, request, set_next, find_manual}
use crypto_market_advisor.Scheduler.System.{System, Event, Step, Run, accepted}

-- An older event is no request for this symbol that was accepted less than a cooldown ago.
unfoldable pub IsPast : (cooldown : ℕ) → String → Time → Event → Type 0
IsPast cooldown symbol now (accepted s t) = s ≡ symbol → t + cooldown ≤ now
IsPast cooldown symbol now _ = Unit

-- Any two accepted requests for one symbol are at least a cooldown apart.
unfoldable pub IsSpaced : (cooldown : ℕ) → List Event → Type 0
unfolding IsPast
IsSpaced cooldown [] = Unit
IsSpaced cooldown (accepted s t ∷ es) = All (IsPast cooldown s t) es × IsSpaced cooldown es
IsSpaced cooldown (_ ∷ es) = IsSpaced cooldown es

-- The scheduler remembers of every symbol a request that is not older than the event.
IsKnown : List (String × Time) → Event → Type 0
IsKnown m (accepted s t) = (last : Time) × (find_manual s m ≡ some last) × (t ≤ last)
IsKnown m _ = Unit

-- What the acceptance of a request says.
unfoldable IsFree : (cooldown : ℕ) → Time → String → List (String × Time) → Type 0
IsFree cooldown now symbol m =
    (last : Time) → find_manual symbol m ≡ some last → last + cooldown ≤ now

request-IsFree :
    (c : ℕ) (now : Time) (symbol : String) (s : Scheduler) {k : Scheduler}
    → request c now symbol s ≡ some k
    → IsFree c now symbol s.last_manual
unfolding request IsFree
request-IsFree c now symbol s h last e = ground arith

request-manual :
    (c : ℕ) (now : Time) (symbol : String) (s : Scheduler) {k : Scheduler}
    → request c now symbol s ≡ some k
    → k.last_manual ≡ (symbol, now) ∷ s.last_manual
unfolding request
request-manual c now symbol s h = ground arith

known-IsPast :
    (c : ℕ) (now : Time) (symbol : String) (m : List (String × Time)) (e : Event)
    → IsFree c now symbol m
    → IsKnown m e
    → IsPast c symbol now e
unfolding IsPast IsKnown IsFree
known-IsPast c now symbol m (accepted s t) free (last, found, le) = λ same.
    let there = sym (ap (λ x. find_manual x m) same) ∙ found in omega (arith, free last there, le)
known-IsPast c now symbol m _ free k = tt

still-IsKnown :
    (c : ℕ) (now : Time) (symbol : String) (m : List (String × Time)) (e : Event)
    → IsFree c now symbol m
    → IsKnown m e
    → IsKnown ((symbol, now) ∷ m) e
unfolding IsKnown IsFree find_manual
still-IsKnown c now symbol m (accepted s t) free (last, found, le) =
    elim (Bool-cases (str_eq symbol s)) [
      | inl same ↦ (
        now,
        ap (λ b. if b then some now else find_manual s m) same,
        omega (arith, free last (ap (λ x. find_manual x m) ((eq_iff symbol s).0 same) ∙ found), le),
      )
      | inr other ↦ (last, ap (λ b. if b then some now else find_manual s m) other ∙ found, le)
    ]
still-IsKnown c now symbol m _ free k = tt

rest_remembered :
    (c : ℕ) (now : Time) (symbol : String) (m : List (String × Time)) (es : List Event)
    → IsFree c now symbol m
    → All (IsKnown m) es
    → All (IsPast c symbol now) es × All (IsKnown ((symbol, now) ∷ m)) es
rest_remembered c now symbol m [] free k = (tt, tt)
rest_remembered c now symbol m (e ∷ es) free (k, ks) =
    let (past, known) = rest_remembered c now symbol m es free ks in
    ((known-IsPast c now symbol m e free k, past), (still-IsKnown c now symbol m e free k, known))

enter-manual : (s : Scheduler) {k : Scheduler} → enter s ≡ some k → k.last_manual ≡ s.last_manual
unfolding enter
enter-manual s h = ground arith

IsTracked : (cooldown : ℕ) → List Event → System → Type 0
unfolding IsSpaced
IsTracked cooldown es s = IsSpaced cooldown es × All (IsKnown s.scheduler.last_manual) es

moved-IsTracked :
    {c : ℕ} {s t : System} {e : Event} (es : List Event)
    → Step c s e t
    → IsTracked c es s
    → IsTracked c (e ∷ es) t
unfolding IsTracked IsSpaced IsKnown leave set_next find_manual
moved-IsTracked {s = s} es (Step.begins i {k = k} b e) (spaced, known) =
    (spaced, (tt, subst (λ m. All (IsKnown m) es) (sym (enter-manual s.scheduler e)) known))
moved-IsTracked es (Step.skips i b e) (spaced, known) = (spaced, (tt, known))
moved-IsTracked es (Step.ends i now b) (spaced, known) = (spaced, (tt, known))
moved-IsTracked {c = c} {s = s} es (Step.accepts symbol now {k = k} e) (spaced, known) =
    let free = request-IsFree c now symbol s.scheduler e in
    let (past, still) = rest_remembered c now symbol s.scheduler.last_manual es free known in
    (
      (past, spaced),
      subst (λ m. All (IsKnown m) (accepted symbol now ∷ es))
          (sym (request-manual c now symbol s.scheduler e)) (newest, still),
    )
  where
    newest : IsKnown ((symbol, now) ∷ s.scheduler.last_manual) (accepted symbol now)
    newest = (
      now,
      ap (λ b. if b then some now else find_manual symbol s.scheduler.last_manual)
          ((eq_iff symbol symbol).1 refl),
      omega arith,
    )
moved-IsTracked es (Step.refuses symbol now e) (spaced, known) = (spaced, (tt, known))
moved-IsTracked es (Step.plans t) (spaced, known) = (spaced, (tt, known))

run-IsTracked : (c : ℕ) (es : List Event) (s : System) → Run c es s → IsTracked c es s
unfolding IsTracked IsSpaced
run-IsTracked c es s Run.start = (tt, tt)
run-IsTracked c es s (Run.later {es = es'} r step) =
    moved-IsTracked es' step (run-IsTracked c es' _ r)

-- Whatever else runs, any two accepted manual requests for one symbol are at least the cooldown apart, in
-- the times that the scheduler read for them.
pub run-IsSpaced :
    (cooldown : ℕ) (es : List Event) (s : System) → Run cooldown es s → IsSpaced cooldown es
unfolding IsTracked
run-IsSpaced c es s r = (run-IsTracked c es s r).0
