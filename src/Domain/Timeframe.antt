-- ===== src/Domain/Timeframe.antt =====
-- backend/internal/domain/timeframe.go. A time is its nanoseconds since the zero time of Go's `time`
-- package (year 1, UTC), so `UTC` is the identity and `Truncate(d)` drops the remainder by d.
use crypto_market_advisor.Base.{
  ℕ, ◌-◌, ◌*◌, ◌%◌, String, Bool, true, false, List, [], ◌∷◌, Option, none, some, ltb, ◌==◌,
  if◌then◌else◌,
}
use crypto_market_advisor.Base.Names.{named}

abbrev pub Time : Type 0
Time = ℕ

pub data Timeframe : Type 0 where
  tf1m tf5m tf15m tf1h tf4h tf1d : Timeframe
  other : String → Timeframe

abbrev pub minute : ℕ
minute = 60_000_000_000

abbrev pub hour : ℕ
hour = 3_600_000_000_000

-- `timeframeDurations[t]`; a missing key gives 0.
unfoldable pub duration : Timeframe → ℕ
duration tf1m = minute
duration tf5m = 5 * minute
duration tf15m = 15 * minute
duration tf1h = hour
duration tf4h = 4 * hour
duration tf1d = 24 * hour
duration (other s) = 0

unfoldable pub valid : Timeframe → Bool
valid (other s) = false
valid _ = true

unfoldable pub of_string : String → Timeframe
of_string s =
    named s
      (("1m", tf1m)
        ∷ ("5m", tf5m)
        ∷ ("15m", tf15m)
        ∷ ("1h", tf1h)
        ∷ ("4h", tf4h)
        ∷ ("1d", tf1d)
        ∷ [])
      (other s)

-- `ParseTimeframe`; `none` is the error.
unfoldable pub parse : String → Option Timeframe
unfolding of_string valid
parse s = let tf = of_string s in if valid tf then some tf else none

unfoldable pub truncate : Timeframe → Time → Time
unfolding duration
truncate t ts = let d = duration t in if d == 0 then ts else ts - ts % d

-- One step of `sort.Slice` by duration.
unfoldable pub insert : Timeframe → List Timeframe → List Timeframe
insert t [] = t ∷ []
insert t (u ∷ us) =
    let rest = insert t us in if ltb (duration u) (duration t) then u ∷ rest else t ∷ u ∷ us

unfoldable pub sort_timeframes : List Timeframe → List Timeframe
sort_timeframes [] = []
sort_timeframes (t ∷ ts) = insert t (sort_timeframes ts)

-- The loop of `ParseTimeframes`, before the sort.
unfoldable pub parse_all : List String → Option (List Timeframe)
parse_all [] = some []
parse_all (s ∷ ss) = elim (parse s) [
  | none ↦ none
  | some tf ↦ elim (parse_all ss) [ none ↦ none | some out ↦ some (tf ∷ out) ]
]

unfoldable pub parse_timeframes : List String → Option (List Timeframe)
unfolding parse_all sort_timeframes
parse_timeframes ss = elim (parse_all ss) [ none ↦ none | some out ↦ some (sort_timeframes out) ]
