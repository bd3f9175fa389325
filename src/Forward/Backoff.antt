-- ===== src/Forward/Backoff.antt =====
-- internal/forward/backoff.go. Durations are int64 nanoseconds: those that cannot be negative are
-- natural numbers, the others integers, with the wrap-around of their sums and products. The clock
-- is monotonic, so `now` is at or after `start`. `rand` is given by its numerator over 2 ^ 53.
pub mod Jitter
pub mod Budget
pub mod RetryAfter
use Prim.Native.Nat.{min}
use yukon_collector.Base.{
  ℕ, ◌+◌, ◌-◌, ◌*◌, ◌/◌, ◌^◌, ◌≡◌, refl, Option, none, some, List, [], ◌∷◌, Bytes, codes, ltb, leb,
  if◌then◌else◌, ℤ, pos, negsuc, lt_int, le_int, int64,
}
use yukon_collector.Text.Decimal.{atoi}
use yukon_collector.Forward.Float.{round53}
use yukon_collector.Forward.Config.{second}

pub record Backoff : Type 0 where
  pub interval : ℕ
  pub max : ℕ
  pub max_elapsed : ℕ
  pub start : ℕ

unfoldable pub new_backoff : ℕ → ℕ → ℕ → ℕ → Backoff
new_backoff initial max max_elapsed now = record {
  interval = if ltb max initial then max else initial;
  max = max;
  max_elapsed = max_elapsed;
  start = now;
}

-- 1 + jitterFactor*(2*rand - 1), in units of 2 ^ -53; only the last sum is rounded.
unfoldable pub spread : ℕ → ℕ
spread rand = round53 (2 ^ 52 + rand)

unfoldable pub jittered : ℕ → ℕ → ℕ
unfolding spread
jittered d rand = round53 (round53 d * spread rand) / 2 ^ 53

-- float64(interval) * 1.5, truncated.
unfoldable pub grown : ℕ → ℕ
grown interval = round53 (round53 interval * 3) / 2

-- The int64 sum of an elapsed time and a wait.
abbrev pub add_wait : ℕ → ℤ → ℤ
add_wait elapsed (pos w) = int64 (elapsed + w)
add_wait elapsed (negsuc w) = if ltb w elapsed then pos (elapsed - w - 1) else negsuc (w - elapsed)

abbrev pub longer : ℤ → ℤ → ℤ
longer wait hint = if lt_int wait hint then hint else wait

-- The wait and the new state, or `none` when the budget is spent.
unfoldable pub next : Backoff → ℤ → ℕ → ℕ → Option (ℤ × Backoff)
next b hint now rand =
    let elapsed = now - b.start in
    let wait = longer (pos (jittered b.interval rand)) hint in
    let clipped =
      if lt_int (pos b.max_elapsed) (add_wait elapsed wait)
      then pos (b.max_elapsed - elapsed)
      else wait in
    let interval = if ltb b.max (grown b.interval) then b.max else grown b.interval in
    if leb b.max_elapsed elapsed then none else some (clipped, record b { interval = interval })

-- `at.Sub(now)` where that is positive: it stops at the largest duration.
abbrev pub until : ℕ → ℕ → ℤ
until at now = if ltb now at then pos (min (at - now) (2 ^ 63 - 1)) else pos 0

seconds : ℤ → ℤ
seconds (pos secs) = int64 (secs * second)
seconds (negsuc secs) = pos 0

date : ℕ → Option ℕ → ℤ
date now none = pos 0
date now (some at) = until at now

after : (Bytes → Option ℕ) → Bytes → ℕ → Option ℤ → ℤ
unfolding seconds date
after parse_time v now none = date now (parse_time v)
after parse_time v now (some secs) = seconds secs

-- `http.ParseTime` is a parameter, in nanoseconds on the scale of `now`. An absent header is empty.
unfoldable pub parse_retry_after : (Bytes → Option ℕ) → Bytes → ℕ → ℤ
unfolding after
parse_retry_after parse_time [] now = pos 0
parse_retry_after parse_time (c ∷ v) now = after parse_time (c ∷ v) now (atoi (c ∷ v))
