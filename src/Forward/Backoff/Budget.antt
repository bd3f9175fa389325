-- ===== src/Forward/Backoff/Budget.antt =====
-- The wait that `next` returns, and where its int64 sum goes wrong.
use Prim.Native.Nat
use yukon_collector.Base.{
  ℕ, ◌+◌, ◌-◌, ◌*◌, ◌/◌, ◌^◌, ◌≤◌, ◌<◌, ◌≡◌, true, Option, none, some, ltb, leb, if◌then◌else◌,
  arith, ℤ, pos, negsuc, le_int,
}
use yukon_collector.Forward.Backoff.{Backoff, jittered, grown, next}
use yukon_collector.Forward.Backoff.Jitter.{exact_limit, jittered_bounds, grown_lem}

abbrev pub pos_part : ℤ → ℕ
pos_part (pos n) = n
pos_part (negsuc n) = 0

-- The wait before the next attempt: the jittered interval or the server's hint, whichever is
-- longer, but no longer than what is left of the budget.
abbrev pub promised_wait : Backoff → ℤ → ℕ → ℕ → ℕ
promised_wait b hint now rand =
    Nat.min (Nat.max (jittered b.interval rand) (pos_part hint)) (b.max_elapsed - (now - b.start))

abbrev pub promised : Backoff → ℤ → ℕ → ℕ → Option (ℤ × Backoff)
promised b hint now rand =
    if leb b.max_elapsed (now - b.start)
    then none
    else some (
      pos (promised_wait b hint now rand),
      record b { interval = Nat.min (3 * b.interval / 2) b.max },
    )

-- For intervals up to 2 ^ 50 ns, a random number below one, and a budget and a hint of at most 2 ^
-- 62 ns: `next` returns the promised wait, and the interval grows by half up to its maximum; it
-- fails exactly when the budget is spent.
pub next_lem :
    (b : Backoff) (hint : ℤ) (now rand : ℕ)
    → b.interval ≤ exact_limit
    → rand < 2 ^ 53
    → b.max_elapsed ≤ 2 ^ 62
    → le_int hint (pos (2 ^ 62)) ≡ true
    → next b hint now rand ≡ promised b hint now rand
unfolding next
next_lem b (pos h) now rand small r fits hint =
    ground (arith, jittered_bounds b.interval rand small r, grown_lem b.interval small)
next_lem b (negsuc h) now rand small r fits hint =
    ground (arith, jittered_bounds b.interval rand small r, grown_lem b.interval small)

-- For intervals up to 2 ^ 50 ns, a random number below one, and a budget of at most 2 ^ 62 ns that
-- is not spent: a hint below 2 ^ 63 ns whose sum with the elapsed time reaches 2 ^ 63 is returned
-- whole, so the wait is not clipped and the next attempt comes after the budget's end.
pub next_overflow :
    (b : Backoff) (hint now rand : ℕ)
    → b.interval ≤ exact_limit
    → rand < 2 ^ 53
    → now - b.start < b.max_elapsed
    → b.max_elapsed ≤ 2 ^ 62
    → hint < 2 ^ 63
    → 2 ^ 63 ≤ (now - b.start) + hint
    → (b' : Backoff) × (next b (pos hint) now rand ≡ some (pos hint, b'))
      × (b.max_elapsed < (now - b.start) + hint)
unfolding next
next_overflow b hint now rand small r left fits h over = (
  record b { interval = if ltb b.max (grown b.interval) then b.max else grown b.interval },
  ground (arith, jittered_bounds b.interval rand small r),
  omega arith,
)
