-- ===== src/Backtest/Causal.antt =====
-- backend/internal/backtesting/engine.go: no decision sees a candle that closes after its moment. The
-- search in the candles, which are in the order of their close times, finds where those end.
use crypto_market_advisor.Base.{
  ℕ, zero, suc, ◌+◌, ◌-◌, ◌/◌, ◌≤◌, ◌<◌, ◌≡◌, refl, sym, ap, ◌∙◌, Bool, true, false, inl, inr,
  Bool-cases, List, [], ◌∷◌, ◌++◌, All, All-append, append_assoc, length, length-append, get_elem?,
  leb, leb→le, arith,
}
use crypto_market_advisor.Base.Int.{ℤ}
use crypto_market_advisor.Domain.Timeframe.{Time}
use crypto_market_advisor.Domain.Market.{Candle}
use crypto_market_advisor.Backtest.Visible.{
  search_from, search, take, drop, closes_after, closed_count, visible_at, benchmark_at, window,
}

-- A test that is false below m and true from m on.
abbrev pub TurnsAt : (ℕ → Bool) → (m n : ℕ) → Type 0
TurnsAt test m n = ((k : ℕ) → k < m → test k ≡ false) × ((k : ℕ) → m ≤ k → k < n → test k ≡ true)

search_from-turn :
    (rounds : ℕ) (test : ℕ → Bool) (m n i j : ℕ)
    → TurnsAt test m n
    → i ≤ m
    → m ≤ j
    → j ≤ n
    → j < i + rounds
    → search_from rounds test i j ≡ m
unfolding search_from
search_from-turn zero test m n i j t lo hi le fuel = omega arith
search_from-turn (suc rounds) test m n i j (below, above) lo hi le fuel = ground (
  arith,
  below ((i + j) / 2),
  above ((i + j) / 2),
  search_from-turn rounds test m n (suc ((i + j) / 2)) j (below, above),
  search_from-turn rounds test m n i ((i + j) / 2) (below, above),
)

-- The binary search returns the index at which a test that changes once becomes true.
pub search-turn : (test : ℕ → Bool) (m n : ℕ) → m ≤ n → TurnsAt test m n → search n test ≡ m
unfolding search
search-turn test m n h t =
    search_from-turn (suc n) test m n 0 n t (omega arith) h (omega arith) (omega arith)

turn_suc :
    (test : ℕ → Bool) (m n : ℕ)
    → test 0 ≡ false
    → TurnsAt (λ k. test (suc k)) m n
    → TurnsAt test (suc m) (suc n)
turn_suc test m n e (below, above) = (false_at, true_at)
  where
    false_at : (k : ℕ) → k < suc m → test k ≡ false
    false_at zero lt = e
    false_at (suc k) lt = below k (omega arith)

    true_at : (k : ℕ) → suc m ≤ k → k < suc n → test k ≡ true
    true_at zero le lt = absurd (omega arith)
    true_at (suc k) le lt = above k (omega arith) (omega arith)

turn_zero :
    (test : ℕ → Bool) (n : ℕ)
    → test 0 ≡ true
    → TurnsAt (λ k. test (suc k)) 0 n
    → TurnsAt test 0 (suc n)
turn_zero test n e (below, above) = (λ k lt. absurd (omega arith), true_at)
  where
    true_at : (k : ℕ) → 0 ≤ k → k < suc n → test k ≡ true
    true_at zero le lt = e
    true_at (suc k) le lt = above k (omega arith) (omega arith)

module _ {F : Type 0} where
  abbrev pub ClosesBy : Time → Candle F → Type 0
  ClosesBy at c = c.close_time ≤ at

  abbrev pub ClosesLater : Time → Candle F → Type 0
  ClosesLater at c = at < c.close_time

  -- In the order of the close times.
  abbrev pub IsAscending : List (Candle F) → Type 0
  IsAscending [] = Unit
  IsAscending (c ∷ cs) = All (λ (x : Candle F). c.close_time ≤ x.close_time) cs × IsAscending cs

  closes_after-TurnsAt :
      (at : Time) (old later : List (Candle F))
      → All (ClosesBy at) old
      → All (ClosesLater at) later
      → TurnsAt
          (λ k. closes_after at (get_elem? (old ++ later) k))
          (length old)
          (length (old ++ later))
  closes_after-TurnsAt at [] [] h k = (λ n lt. absurd (omega arith), λ n le lt. refl)
  closes_after-TurnsAt at [] (c ∷ later) h (k, ks) =
      turn_zero (λ n. closes_after at (get_elem? (c ∷ later) n)) (length later) (ground (arith, k))
        (closes_after-TurnsAt at [] later tt ks)
  closes_after-TurnsAt at (c ∷ old) later (h, hs) k =
      turn_suc (λ n. closes_after at (get_elem? (c ∷ old ++ later) n)) (length old)
        (length (old ++ later)) (ground (arith, h)) (closes_after-TurnsAt at old later hs k)

  take-append : (xs ys : List (Candle F)) → take (length xs) (xs ++ ys) ≡ xs
  take-append [] ys = refl
  take-append (x ∷ xs) ys = ap (λ zs. x ∷ zs) (take-append xs ys)

  closed_count-append :
      (at : Time) (old later : List (Candle F))
      → All (ClosesBy at) old
      → All (ClosesLater at) later
      → closed_count (old ++ later) at ≡ length old
  unfolding closed_count
  closed_count-append at old later h k =
      search-turn (λ n. closes_after at (get_elem? (old ++ later) n)) (length old)
        (length (old ++ later)) (omega (arith, length-append old later))
        (closes_after-TurnsAt at old later h k)

  -- Of candles in the order of their close times, those that close later are not visible, and what is
  -- visible does not depend on them.
  pub visible_at-append :
      (at : Time) (limit : ℤ) (old later : List (Candle F))
      → All (ClosesBy at) old
      → All (ClosesLater at) later
      → visible_at (old ++ later) at limit ≡ drop (length old - window limit) old
  unfolding visible_at
  visible_at-append at limit old later h k =
      rw (closed_count-append at old later h k, take-append old later) refl

  benchmark_at-append :
      (at : Time) (old later : List (Candle F))
      → All (ClosesBy at) old
      → All (ClosesLater at) later
      → benchmark_at (old ++ later) at ≡ old
  unfolding benchmark_at
  benchmark_at-append at old later h k =
      rw (closed_count-append at old later h k) (take-append old later)

  -- Candles in order split at any moment.
  split_at :
      (at : Time) (cs : List (Candle F))
      → IsAscending cs
      → (old : List (Candle F)) × (new : List (Candle F)) × (cs ≡ old ++ new)
        × All (ClosesBy at) old
        × All (ClosesLater at) new
  split_at at [] h = ([], [], refl, tt, tt)
  split_at at (c ∷ cs) (h, hs) = elim (Bool-cases (leb c.close_time at)) [
    | inl e ↦
        let (old, new, same, by, later) = split_at at cs hs in
        (c ∷ old, new, ap (λ xs. c ∷ xs) same, (leb→le c.close_time at e, by), later)
    | inr e ↦ ([], c ∷ cs, refl, tt, (ground arith, all_later cs h (ground arith)))
  ]
    where
      all_later :
          (xs : List (Candle F))
          → All (λ (x : Candle F). c.close_time ≤ x.close_time) xs
          → at < c.close_time
          → All (ClosesLater at) xs
      all_later [] k lt = tt
      all_later (x ∷ xs) (k, ks) lt = (omega arith, all_later xs ks lt)

  -- Two histories that are one until a moment.
  pub record Agree (until : Time) (xs ys : List (Candle F)) : Type 0 where
    pub common : List (Candle F)
    pub xs_later : List (Candle F)
    pub ys_later : List (Candle F)
    pub xs_split : xs ≡ common ++ xs_later
    pub ys_split : ys ≡ common ++ ys_later
    pub ascending : IsAscending common
    pub xs_after : All (ClosesLater until) xs_later
    pub ys_after : All (ClosesLater until) ys_later

  later_of_until :
      (at until : Time) (cs : List (Candle F))
      → at ≤ until
      → All (ClosesLater until) cs
      → All (ClosesLater at) cs
  later_of_until at until [] h k = tt
  later_of_until at until (c ∷ cs) h (k, ks) = (omega arith, later_of_until at until cs h ks)

  -- Until that moment the two show the same candles.
  pub visible_at-Agree :
      (at until : Time) (limit : ℤ) (xs ys : List (Candle F))
      → at ≤ until
      → Agree until xs ys
      → (visible_at xs at limit ≡ visible_at ys at limit)
        × (benchmark_at xs at ≡ benchmark_at ys at)
  visible_at-Agree at until limit xs ys h a =
      let (old, new, same, by, later) = split_at at a.common a.ascending in
      let shown = λ (zs : List (Candle F)) (k : All (ClosesLater until) zs).
        All-append (ClosesLater at) new zs later (later_of_until at until zs h k) in
      let as_split = λ (zs : List (Candle F)). ap (λ cs. cs ++ zs) same ∙ append_assoc old new zs in
      rw (a.xs_split, a.ys_split, as_split a.xs_later, as_split a.ys_later)
        (
          visible_at-append at limit old (new ++ a.xs_later) by (shown a.xs_later a.xs_after)
              ∙ sym (
                  visible_at-append at limit old (new ++ a.ys_later) by
                    (shown a.ys_later a.ys_after)),
          benchmark_at-append at old (new ++ a.xs_later) by (shown a.xs_later a.xs_after)
              ∙ sym
                  (benchmark_at-append at old (new ++ a.ys_later) by (shown a.ys_later a.ys_after)),
        )
