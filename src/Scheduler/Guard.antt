-- ===== src/Scheduler/Guard.antt =====
-- backend/internal/scheduler/scheduler.go: the state of `Scheduler` that `mu` protects, and each section of
-- code that holds the lock as one function. The clock is read once for a section, also where the code reads
-- it twice in a row.
use text.Mathlib.Text.{◌==◌ as str_eq}
use crypto_market_advisor.Base.{
  ℕ, ◌+◌, ◌-◌, ◌%◌, String, Bool, true, false, if◌then◌else◌, Option, none, some, List, [], ◌∷◌,
  ltb, ◌==◌,
}
use crypto_market_advisor.Base.Int.{ℤ, pos, negsuc}
use crypto_market_advisor.Domain.Timeframe.{Time, minute}

-- The map of the last manual requests is a list of pairs, the newest first. The zero time is 0.
pub record Scheduler : Type 0 where
  pub last_manual : List (String × Time)
  pub last_cycle : Time
  pub next_cycle : Time
  pub cycle_running : Bool

-- The part of `New` that sets this state.
unfoldable pub new_scheduler : Scheduler
new_scheduler = record { last_manual = []; last_cycle = 0; next_cycle = 0; cycle_running = false }

-- `lastManual[symbol]`
unfoldable pub find_manual : String → List (String × Time) → Option Time
find_manual symbol [] = none
find_manual symbol ((s, t) ∷ rest) =
    let older = find_manual symbol rest in if str_eq s symbol then some t else older

-- How `RunCycle` begins; `none` is a skipped cycle.
unfoldable pub enter : Scheduler → Option Scheduler
enter s = if s.cycle_running then none else some (record s { cycle_running = true })

-- What `RunCycle` defers.
unfoldable pub leave : (now : Time) → Scheduler → Scheduler
leave now s = record s { cycle_running = false; last_cycle = now }

-- How `AnalyzeNow` begins; `none` is ErrCooldown. The cooldown is not negative.
unfoldable pub request :
    (cooldown : ℕ) → (now : Time) → (symbol : String) → Scheduler → Option Scheduler
unfolding find_manual
request cooldown now symbol s =
    let accepted = record s { last_manual = (symbol, now) ∷ s.last_manual } in
    elim (find_manual symbol s.last_manual) [
      | none ↦ some accepted
      | some last ↦ if ltb now (last + cooldown) then none else some accepted
    ]

unfoldable pub set_next : Time → Scheduler → Scheduler
set_next t s = record s { next_cycle = t }

pub record Observability : Type 0 where
  pub last_cycle : Option Time
  pub next_cycle : Option Time
  pub cycle_active : Bool

-- A time that is not the zero time.
unfoldable pub shown : Time → Option Time
shown t = if t == 0 then none else some t

unfoldable pub observability : Scheduler → Observability
unfolding shown
observability s = record {
  last_cycle = shown s.last_cycle;
  next_cycle = shown s.next_cycle;
  cycle_active = s.cycle_running;
}

-- `untilNextBoundary`. `now.Truncate(d)` drops the remainder by d.
unfoldable pub until_next_boundary : (now : Time) → (interval : ℤ) → ℕ
until_next_boundary now (negsuc n) = minute
until_next_boundary now (pos d) =
    if d == 0 then minute else let next = (now - now % d) + d in next - now
