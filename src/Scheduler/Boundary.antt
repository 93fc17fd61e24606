-- ===== src/Scheduler/Boundary.antt =====
-- backend/internal/scheduler/scheduler.go: when the next cycle starts.
use native.Mathlib.Nat.{mod-lt, div-add-mod, div-lt_iff_lt-mul, mul-le-mul_right, mul_comm, suc-mul}
use crypto_market_advisor.Base.{
  ℕ, suc, ◌+◌, ◌-◌, ◌*◌, ◌/◌, ◌%◌, ◌≤◌, ◌<◌, ◌≡◌, ap, ◌∙◌, false, ◌==◌, arith, if◌then◌else◌,
}
use crypto_market_advisor.Base.Int.{pos}
use crypto_market_advisor.Domain.Timeframe.{Time, minute}
use crypto_market_advisor.Scheduler.Guard.{until_next_boundary}

-- Now and the delay are the first multiple of the interval after now.
next_boundary : (now d : ℕ) → 0 < d → now + until_next_boundary now (pos d) ≡ d * (now / d) + d
unfolding until_next_boundary
next_boundary now d h =
    ap (λ b. now + (if b then minute else (now - now % d) + d - now)) positive ∙ rest
  where
    positive : (d == 0) ≡ false
    positive = ground arith

    rest : now + ((now - now % d) + d - now) ≡ d * (now / d) + d
    rest = omega (arith, div-add-mod now d, mod-lt now h)

-- With a positive interval d the loop of the analysis wakes up at a multiple of d after the present, and at
-- the first one: no multiple k * d that is after the present comes before.
pub until_next_boundary_lem :
    (now : Time) (d k : ℕ)
    → 0 < d
    → now < k * d
    → (now < now + until_next_boundary now (pos d))
      × (now + until_next_boundary now (pos d) ≤ k * d)
      × ((q : ℕ) × (now + until_next_boundary now (pos d) ≡ q * d))
until_next_boundary_lem now d k h later =
    let next = next_boundary now d h in
    let whole = div-add-mod now d in
    let step = suc-mul (now / d) d in
    let turned = mul_comm d (now / d) in
    let below = mul-le-mul_right d ((div-lt_iff_lt-mul {x = now} {y = k} h).1 later) in
    (
      omega (arith, next, whole, mod-lt now h),
      omega (arith, next, turned, step, below),
      (suc (now / d), omega (arith, next, turned, step)),
    )
