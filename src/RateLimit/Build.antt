-- ===== src/RateLimit/Build.antt =====
-- internal/ratelimit/limiter.go: the options, `New` and `Stop`. A rate is any type.
use yukon_collector.Base.{
  ℕ, ◌≡◌, Bool, true, false, ◌&&◌, List, [], ◌∷◌, Bytes, length, if◌then◌else◌, le_int, ℤ, pos,
}
use yukon_collector.RateLimit.{Limiter, new_limiter, evict_stale}

abbrev pub default_ipv6_prefix : ℤ
default_ipv6_prefix = pos 128

pub data LimiterOption : Type 0 where
  with_client_ip_header : (name : Bytes) → LimiterOption
  with_prefix_bits : (bits : ℤ) → LimiterOption
  with_stale_after : (d : ℕ) → LimiterOption
  with_max_visitors : (n : ℕ) → LimiterOption

-- `running` says that the eviction loop has not returned.
pub record Built (F B : Type 0) : Type 0 where
  pub rate : F
  pub burst : ℤ
  pub client_ip_header : Bytes
  pub ipv6_prefix : ℤ
  pub limiter : Limiter B
  pub stopped : Bool
  pub running : Bool

-- `WithIPv6Prefix`, which ignores a value that is out of range.
unfoldable pub with_ipv6_prefix : (bits current : ℤ) → ℤ
with_ipv6_prefix bits current =
    if le_int (pos 1) bits && le_int bits (pos 128) then bits else current

module _ {F B : Type 0} where
  abbrev pub apply_option : LimiterOption → Built F B → Built F B
  apply_option (with_client_ip_header name) l = record l { client_ip_header = name }
  apply_option (with_prefix_bits bits) l = record l {
    ipv6_prefix = with_ipv6_prefix bits l.ipv6_prefix;
  }
  apply_option (with_stale_after d) l = record l { limiter = record l.limiter { stale_after = d } }
  apply_option (with_max_visitors n) l = record l {
    limiter = record l.limiter { max_visitors = n };
  }

  abbrev pub apply_options : List LimiterOption → Built F B → Built F B
  apply_options [] l = l
  apply_options (o ∷ os) l = apply_options os (apply_option o l)

  abbrev pub new : F → ℤ → List LimiterOption → Built F B
  new rate burst opts = apply_options opts (record {
    rate = rate;
    burst = burst;
    client_ip_header = [];
    ipv6_prefix = default_ipv6_prefix;
    limiter = new_limiter;
    stopped = false;
    running = true;
  })

  -- `Stop`, which may be called again.
  abbrev pub stop : Built F B → Built F B
  stop l = record l { stopped = true }

  -- What the eviction loop does: while it runs a tick may come, also beside a closed `stop`.
  pub data LoopStep (l m : Built F B) : Type 0 where
    evicts :
        (now : ℕ)
        → l.running ≡ true
        → m ≡ record l { limiter = evict_stale (length l.limiter.order) now l.limiter }
        → LoopStep l m
    returns : l.running ≡ true → l.stopped ≡ true → m ≡ record l { running = false } → LoopStep l m
