-- ===== src/Scheduler/System.antt =====
-- backend/internal/scheduler/scheduler.go: the loops and the requests, which run at the same time. What holds
-- the lock is one step; between its two sections a call of `RunCycle` can take any time.
use mathlib.Core.Logic.{ite}
use crypto_market_advisor.Base.{ℕ, String, ◌≡◌, none, some, List, [], ◌∷◌, ℕ_discrete}
use crypto_market_advisor.Domain.Timeframe.{Time}
use crypto_market_advisor.Scheduler.Guard.{
  Scheduler, new_scheduler, enter, leave, request, set_next,
}

-- A call of `RunCycle`: not yet made, between its two sections, or returned.
pub data Phase : Type 0 where
  before inside after : Phase

pub record System : Type 0 where
  pub scheduler : Scheduler
  pub calls : ℕ → Phase

-- What a step shows to the outside.
pub data Event : Type 0 where
  began ended skipped : ℕ → Event
  accepted refused : String → Time → Event
  planned : Time → Event

abbrev pub update : (ℕ → Phase) → ℕ → Phase → ℕ → Phase
update f i p j = ite (ℕ_discrete i j) p (f j)

unfoldable pub initial : System
unfolding new_scheduler
initial = record { scheduler = new_scheduler; calls = λ _. before }

-- One section under the lock, by a call of `RunCycle`, a request to `AnalyzeNow`, or the loop that plans.
pub data Step (cooldown : ℕ) (s : System) : Event → System → Type 0 where
  begins :
      (i : ℕ) {k : Scheduler}
      → s.calls i ≡ before
      → enter s.scheduler ≡ some k
      → Step cooldown s (began i) (record { scheduler = k; calls = update s.calls i inside })
  skips :
      (i : ℕ)
      → s.calls i ≡ before
      → enter s.scheduler ≡ none
      → Step cooldown s
          (skipped i)
          (record { scheduler = s.scheduler; calls = update s.calls i after })
  ends :
      (i : ℕ) (now : Time)
      → s.calls i ≡ inside
      → Step cooldown s
          (ended i)
          (record { scheduler = leave now s.scheduler; calls = update s.calls i after })
  accepts :
      (symbol : String) (now : Time) {k : Scheduler}
      → request cooldown now symbol s.scheduler ≡ some k
      → Step cooldown s (accepted symbol now) (record { scheduler = k; calls = s.calls })
  refuses :
      (symbol : String) (now : Time)
      → request cooldown now symbol s.scheduler ≡ none
      → Step cooldown s (refused symbol now) s
  plans :
      (t : Time)
      → Step cooldown s (planned t) (record { scheduler = set_next t s.scheduler; calls = s.calls })

-- The runs from the start, with their events, the newest first.
pub data Run (cooldown : ℕ) : List Event → System → Type 0 where
  start : Run cooldown [] initial
  later :
      {es : List Event} {e : Event} {s t : System}
      → Run cooldown es s
      → Step cooldown s e t
      → Run cooldown (e ∷ es) t
