-- ===== src/Forward/Backoff/Jitter.antt =====
-- The range of a jittered wait and the growth of the interval, for intervals up to 2 ^ 50 ns, which is
-- thirteen days.
use native.Mathlib.Nat.{mul-le-mul_left}
use yukon_collector.Base.{ℕ, ◌+◌, ◌*◌, ◌/◌, ◌^◌, ◌≤◌, ◌<◌, ◌≡◌, arith}
use yukon_collector.Forward.Float.{round53}
use yukon_collector.Forward.Float.Rounding.{round53-below, round53-above, round53_small}
use yukon_collector.Forward.Backoff.{spread, jittered, grown}

abbrev pub exact_limit : ℕ
exact_limit = 2 ^ 50

spread_bounds : (rand : ℕ) → rand < 2 ^ 53 → (2 ^ 52 ≤ spread rand) × (spread rand ≤ 3 * 2 ^ 52)
unfolding spread
spread_bounds rand h = (
  round53-below 52 1 (2 ^ 52 + rand) (omega arith) (omega arith),
  round53-above 52 3 (2 ^ 52 + rand) (omega arith) (omega arith),
)

product_bounds :
    (d s : ℕ)
    → d ≤ exact_limit
    → 2 ^ 52 ≤ s
    → s ≤ 3 * 2 ^ 52
    → (d * 2 ^ 52 ≤ round53 (d * s)) × (round53 (d * s) ≤ (3 * d) * 2 ^ 52)
product_bounds d s h lo hi =
    let below = mul-le-mul_left d lo in
    let above = mul-le-mul_left d hi in
    (
      round53-below 52 d (d * s) (omega arith) (omega arith),
      round53-above 52 (3 * d) (d * s) (omega arith) (omega arith),
    )

-- For an interval up to 2 ^ 50 ns and a random number below one, the jittered wait lies between
-- half the interval and one and a half intervals.
pub jittered_bounds :
    (d rand : ℕ)
    → d ≤ exact_limit
    → rand < 2 ^ 53
    → (d / 2 ≤ jittered d rand) × (2 * jittered d rand ≤ 3 * d)
unfolding jittered
jittered_bounds d rand h k =
    let (lo, hi) = spread_bounds rand k in
    let (below, above) = product_bounds d (spread rand) h lo hi in
    rw (round53_small d (omega arith)) (omega arith, omega arith)

-- The interval grows by half, rounded down.
pub grown_lem : (d : ℕ) → d ≤ exact_limit → grown d ≡ 3 * d / 2
unfolding grown
grown_lem d h =
    rw (round53_small d (omega arith), round53_small (d * 3) (omega arith)) (omega arith)
