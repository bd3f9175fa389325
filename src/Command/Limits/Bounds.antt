-- ===== src/Command/Limits/Bounds.antt =====
-- cmd/otherlode-collector/main.go: the ranges of the limits.
use yukon_collector.Base.{◌≡◌, ◌⊎◌, true, false, Option, Bytes, ℤ, pos, le_int, arith}
use yukon_collector.Command.Settings.{ok}
use yukon_collector.RateLimit.Build.{with_ipv6_prefix, default_ipv6_prefix}
use yukon_collector.Command.Limits.{
  Float, is_negative, is_positive, is_finite, resolve_rate_limit, resolve_ipv6_prefix,
}

-- A rate and a burst that the limiter can work with.
pub record IsRate (rps : Float) (burst : ℤ) : Type 0 where
  pub is_number : is_finite rps ≡ true
  pub not_below : is_negative rps ≡ false
  pub spends : (is_positive rps ≡ false) ⊎ (le_int burst (pos 0) ≡ false)

pub resolve_rate_limit-IsRate :
    (parse_float : Bytes → Option Float) (rps_raw burst_raw : Bytes) (rps : Float) (burst : ℤ)
    → resolve_rate_limit parse_float rps_raw burst_raw ≡ ok (rps, burst)
    → IsRate rps burst
unfolding resolve_rate_limit
resolve_rate_limit-IsRate parse_float rps_raw burst_raw rps burst h = record {
  is_number = ground arith;
  not_below = ground arith;
  spends = ground arith;
}

-- The prefix that starts the program is from 1 to 128, so the limiter takes it as it is.
pub resolve_ipv6_prefix_lem :
    (raw : Bytes) (bits : ℤ)
    → resolve_ipv6_prefix raw ≡ ok bits
    → (le_int (pos 1) bits ≡ true)
      × (le_int bits (pos 128) ≡ true)
      × (with_ipv6_prefix bits default_ipv6_prefix ≡ bits)
unfolding resolve_ipv6_prefix with_ipv6_prefix
resolve_ipv6_prefix_lem raw bits h = ground arith
