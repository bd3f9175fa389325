-- ===== src/Forward/Config.antt =====
-- internal/forward/forward.go: the settings, their defaults, and the check of the backend's URL.
-- `url.Parse` is a parameter, which gives the parts that the check reads.
pub mod Checks
use mathlib.Core.List.{reverse}
use yukon_collector.Base.{
  ℕ, ◌*◌, ◌^◌, ◌≡◌, refl, Bool, true, false, ◌&&◌, ◌||◌, not, Option, none, some, List, [], ◌∷◌,
  Bytes, codes, bytes_eq, is_empty, ◌==◌, if◌then◌else◌, ℤ, pos, negsuc, le_int,
}

-- Durations are in nanoseconds. `auth_token` is what the token source, if there is one, answers now.
pub record Config : Type 0 where
  pub url : Bytes
  pub auth_token : Option Bytes
  pub shards : ℤ
  pub queue_size : ℤ
  pub queue_bytes : ℤ
  pub request_timeout : ℤ
  pub retry_initial_interval : ℤ
  pub retry_max_interval : ℤ
  pub retry_max_elapsed_time : ℤ

abbrev pub second : ℕ
second = 1_000_000_000

abbrev pub default_shards : ℕ
default_shards = 8

abbrev pub default_queue_size : ℕ
default_queue_size = 64

abbrev pub default_queue_bytes : ℕ
default_queue_bytes = 64 * 2 ^ 20

abbrev pub default_request_timeout : ℕ
default_request_timeout = 10 * second

abbrev pub default_retry_initial_interval : ℕ
default_retry_initial_interval = 5 * second

abbrev pub default_retry_max_interval : ℕ
default_retry_max_interval = 30 * second

abbrev pub default_retry_max_elapsed_time : ℕ
default_retry_max_elapsed_time = 300 * second

abbrev pub or_default : ℤ → ℕ → ℤ
or_default v d = if le_int v (pos 0) then pos d else v

unfoldable pub with_defaults : Config → Config
with_defaults c = record c {
  shards = or_default c.shards default_shards;
  queue_size = or_default c.queue_size default_queue_size;
  queue_bytes = or_default c.queue_bytes default_queue_bytes;
  request_timeout = or_default c.request_timeout default_request_timeout;
  retry_initial_interval = or_default c.retry_initial_interval default_retry_initial_interval;
  retry_max_interval = or_default c.retry_max_interval default_retry_max_interval;
  retry_max_elapsed_time = or_default c.retry_max_elapsed_time default_retry_max_elapsed_time;
}

pub auth_token : Config → Bytes
auth_token c = elim c.auth_token [ none ↦ [] | some key ↦ key ]

-- What `url.Parse` returns for a text that it accepts.
pub record Url : Type 0 where
  pub scheme : Bytes
  pub host : Bytes
  pub has_user : Bool
  pub raw_query : Bytes
  pub force_query : Bool
  pub fragment : Bytes

pub data UrlError : Type 0 where
  empty unparsable bad_scheme missing_host user_info has_query has_fragment : UrlError

pub data Checked : Type 0 where
  usable : (base scheme : Bytes) → Checked
  unusable : UrlError → Checked

unfoldable pub contains : ℕ → Bytes → Bool
contains b [] = false
contains b (c ∷ s) = (c == b) || contains b s

-- Drops leading copies of `b`.
unfoldable pub drop_byte : ℕ → Bytes → Bytes
drop_byte b [] = []
drop_byte b (c ∷ s) = let rest = drop_byte b s in if c == b then rest else c ∷ s

-- `strings.TrimRight(s, "/")`.
unfoldable pub trim_slashes : Bytes → Bytes
unfolding drop_byte
trim_slashes s = reverse (drop_byte b'/' (reverse s))

check_parts : Bytes → Option Url → Checked
check_parts raw none = unusable unparsable
check_parts raw (some u) =
    if not (bytes_eq u.scheme (codes "http")) && not (bytes_eq u.scheme (codes "https"))
    then unusable bad_scheme
    else if is_empty u.host
    then unusable missing_host
    else if u.has_user
    then unusable user_info
    else if not (is_empty u.raw_query) || u.force_query
    then unusable has_query
    else if not (is_empty u.fragment) || contains b'#' raw
    then unusable has_fragment
    else usable (trim_slashes raw) u.scheme

unfoldable pub validate_url : (Bytes → Option Url) → Bytes → Checked
unfolding check_parts
validate_url parse raw = if is_empty raw then unusable empty else check_parts raw (parse raw)
