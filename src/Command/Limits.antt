-- ===== src/Command/Limits.antt =====
-- cmd/otherlode-collector/main.go: the settings of the rate limiter and of the decode slots.
-- `strconv.ParseFloat` is a parameter: a finite float64 is `m` times two to the power `e`, and the
-- code asks for its sign only. The number of processors is a parameter too.
pub mod Bounds
use yukon_collector.Base.{
  ℕ, zero, suc, Bool, true, false, ◌&&◌, ◌||◌, Option, none, some, Bytes, codes, is_empty,
  if◌then◌else◌, ℤ, pos, negsuc, lt_int, le_int,
}
use yukon_collector.Text.Decimal.{atoi}
use yukon_collector.RateLimit.Build.{default_ipv6_prefix}
use yukon_collector.Command.Settings.{
  unparsable, not_positive, out_of_range, Result, ok, err, ◌>>=◌, Getenv, positive_int_env,
}

pub data Float : Type 0 where
  nan infinite : Float
  finite : (m e : ℤ) → Float

abbrev pub is_negative : Float → Bool
is_negative (finite m e) = lt_int m (pos 0)
is_negative nan = false
is_negative infinite = false

abbrev pub is_positive : Float → Bool
is_positive (finite m e) = lt_int (pos 0) m
is_positive nan = false
is_positive infinite = false

abbrev pub is_finite : Float → Bool
is_finite (finite m e) = true
is_finite nan = false
is_finite infinite = false

abbrev pub default_rate_limit_rps : Float
default_rate_limit_rps = finite (pos 5) (pos 0)

abbrev pub default_rate_limit_burst : ℤ
default_rate_limit_burst = pos 20

abbrev pub rate_limit_rps : Bytes
rate_limit_rps = codes "OTHERLODE_COLLECTOR_RATE_LIMIT_RPS"

abbrev pub rate_limit_burst : Bytes
rate_limit_burst = codes "OTHERLODE_COLLECTOR_RATE_LIMIT_BURST"

abbrev pub rate_limit_ipv6_prefix : Bytes
rate_limit_ipv6_prefix = codes "OTHERLODE_COLLECTOR_RATE_LIMIT_IPV6_PREFIX"

abbrev pub max_concurrent_decodes : Bytes
max_concurrent_decodes = codes "OTHERLODE_COLLECTOR_MAX_CONCURRENT_DECODES"

abbrev read_or : {A : Type 0} → Bytes → Option A → Result A
read_or name none = err (unparsable name)
read_or name (some a) = ok a

abbrev check_rate_values : Float → ℤ → Result (Float × ℤ)
check_rate_values rps burst =
    if is_finite rps
    then (if is_negative rps
        then err (out_of_range rate_limit_rps)
        else if is_positive rps && le_int burst (pos 0)
        then err (not_positive rate_limit_burst)
        else ok (rps, burst))
    else err (out_of_range rate_limit_rps)

unfoldable pub resolve_rate_limit :
    (Bytes → Option Float) → (rps_raw burst_raw : Bytes) → Result (Float × ℤ)
resolve_rate_limit parse_float rps_raw burst_raw = do
  rps ←
      if is_empty rps_raw
      then ok default_rate_limit_rps
      else read_or rate_limit_rps (parse_float rps_raw)
  burst ←
      if is_empty burst_raw
      then ok default_rate_limit_burst
      else read_or rate_limit_burst (atoi burst_raw)
  check_rate_values rps burst

abbrev check_prefix : ℤ → Result ℤ
check_prefix bits =
    if lt_int bits (pos 1) || lt_int (pos 128) bits
    then err (out_of_range rate_limit_ipv6_prefix)
    else ok bits

unfoldable pub resolve_ipv6_prefix : Bytes → Result ℤ
resolve_ipv6_prefix raw =
    if is_empty raw
    then ok default_ipv6_prefix
    else read_or rate_limit_ipv6_prefix (atoi raw) >>= check_prefix

unfoldable pub resolve_max_concurrent_decodes : (processors : ℤ) → Getenv → Result ℤ
resolve_max_concurrent_decodes processors getenv = do
  n ← positive_int_env getenv max_concurrent_decodes
  ok (elim n [ pos zero ↦ processors | pos (suc k) ↦ pos (suc k) | negsuc k ↦ negsuc k ])
