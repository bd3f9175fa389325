-- ===== src/RateLimit/Middleware.antt =====
-- internal/ratelimit/limiter.go: the limiter in front of a handler. `Limited` is the end of a
-- request: turned away here, or served by the next handler.
use yukon_collector.Base.{
  ℕ, zero, suc, ◌+◌, ◌-◌, ◌*◌, ◌/◌, ◌%◌, ◌^◌, ◌≡◌, refl, Option, none, some, List, [], ◌∷◌, Bytes,
  ◌==◌, if◌then◌else◌, ℤ, pos, negsuc,
}
use yukon_collector.Text.Decimal.{itoa}
use yukon_collector.Forward.Float.{round53}
use yukon_collector.Metrics.Counters.{Count, rate_limited}
use yukon_collector.RateLimit.Allow.{Answer}

-- float64(ns) / 1e9 for less than a second, in units of 2 ^ -101. The low bit keeps what the
-- division cut off apart from a tie.
abbrev fraction : ℕ → ℕ
fraction ns = round53 (2 * (ns * 2 ^ 100 / 10 ^ 9) + (if ns * 2 ^ 100 % 10 ^ 9 == 0 then 0 else 1))

-- `Duration.Seconds`, in the same units.
abbrev float_seconds : ℕ → ℕ
float_seconds d = round53 (d / 10 ^ 9 * 2 ^ 101 + fraction (d % 10 ^ 9))

abbrev floored : ℕ → ℕ
floored zero = 1
floored (suc n) = suc n

unfoldable pub retry_after_seconds : ℤ → ℕ
unfolding round53
retry_after_seconds (pos d) = floored ((float_seconds d + (2 ^ 101 - 1)) / 2 ^ 101)
retry_after_seconds (negsuc d) = 1

pub data Limited (X : Type 0) : Type 0 where
  too_many : (status : ℕ) (retry_after : Bytes) → List Count → Limited X
  passed : X → Limited X

abbrev limited_by : {X : Type 0} → X → Answer → Limited X
limited_by x a =
    if a.allowed
    then passed x
    else too_many 429 (itoa (retry_after_seconds a.retry_after)) (rate_limited ∷ [])

abbrev answered : {L X : Type 0} → X → Option (L × Answer) → Option (L × Limited X)
answered x none = none
answered x (some (l, a)) = some (l, limited_by x a)

-- `allow` stands for the call of `allow` on the request's client IP; `none` is its panic.
unfoldable pub middleware :
    {Q L X : Type 0}
    → (allow : Q → L → Option (L × Answer)) → (next : Q → X) → Q
    → L
    → Option (L × Limited X)
middleware allow next q l = answered (next q) (allow q l)

retry_after_test :
    (retry_after_seconds (pos 0) ≡ 1)
    × (retry_after_seconds (pos 1_000_000_001) ≡ 2)
    × (retry_after_seconds (pos 2_000_000_000) ≡ 2)
unfolding retry_after_seconds
retry_after_test = (refl, refl, refl)
