-- ===== src/Command/Forwarding.antt =====
-- cmd/otherlode-collector/main.go: the forwarding settings. `files` is what the system gives for a
-- path, and `parse_duration` is `time.ParseDuration`.
pub mod Keys
pub mod Accepted
use yukon_collector.Base.{
  ℕ, ◌≡◌, Bool, true, false, not, ◌&&◌, ◌||◌, Option, none, some, [], Bytes, codes, is_empty,
  if◌then◌else◌, ℤ, pos,
}
use yukon_collector.Text.Space.{trim_space}
use yukon_collector.TokenFile.{Opened, File, open_file}
use yukon_collector.Forward.Config.{Config}
use yukon_collector.Command.Settings.{
  SettingError, only_spaces, both_set, set_without, bad_file, control_character, Result, ok, err,
  ◌>>=◌, Getenv, positive_int_env, positive_duration_env,
}
use yukon_collector.Command.ForwardKey.{
  ForwardKey, unset, token, store_key, check_header_value, check_forward_keys,
}

abbrev pub forward_url : Bytes
forward_url = codes "OTHERLODE_COLLECTOR_FORWARD_URL"

abbrev pub forward_auth_token : Bytes
forward_auth_token = codes "OTHERLODE_COLLECTOR_FORWARD_AUTH_TOKEN"

abbrev pub forward_auth_token_file : Bytes
forward_auth_token_file = codes "OTHERLODE_COLLECTOR_FORWARD_AUTH_TOKEN_FILE"

abbrev pub forward_shards : Bytes
forward_shards = codes "OTHERLODE_COLLECTOR_FORWARD_SHARDS"

abbrev pub forward_queue_size : Bytes
forward_queue_size = codes "OTHERLODE_COLLECTOR_FORWARD_QUEUE_SIZE"

abbrev pub forward_queue_bytes : Bytes
forward_queue_bytes = codes "OTHERLODE_COLLECTOR_FORWARD_QUEUE_BYTES"

abbrev pub forward_request_timeout : Bytes
forward_request_timeout = codes "OTHERLODE_COLLECTOR_FORWARD_REQUEST_TIMEOUT"

abbrev pub forward_retry_initial_interval : Bytes
forward_retry_initial_interval = codes "OTHERLODE_COLLECTOR_FORWARD_RETRY_INITIAL_INTERVAL"

abbrev pub forward_retry_max_interval : Bytes
forward_retry_max_interval = codes "OTHERLODE_COLLECTOR_FORWARD_RETRY_MAX_INTERVAL"

abbrev pub forward_retry_max_elapsed_time : Bytes
forward_retry_max_elapsed_time = codes "OTHERLODE_COLLECTOR_FORWARD_RETRY_MAX_ELAPSED_TIME"

-- The source of the key: none, a fixed one, or one that a file replaces.
pub data KeySource : Type 0 where
  no_key : KeySource
  static_token : Bytes → KeySource
  key_file : File ForwardKey → KeySource

-- The settings, in which `auth_token` is what the source answers now.
pub record Forwarding : Type 0 where
  pub cfg : Config
  pub source : KeySource

abbrev pub answers : KeySource → Option Bytes
answers no_key = none
answers (static_token k) = some k
answers (key_file f) = token f.applied

abbrev opened_key : Option (File ForwardKey) → Result KeySource
opened_key none = err (bad_file forward_auth_token_file)
opened_key (some f) = ok (key_file f)

abbrev checked_key : Bytes → Option ℕ → Result KeySource
checked_key k none = ok (static_token k)
checked_key k (some i) = err (control_character forward_auth_token i)

module _ (files : Bytes → Option Opened) where
  unfoldable pub resolve_key : (url raw path : Bytes) → Result KeySource
  resolve_key url raw path =
      let present = not (is_empty raw) in
      let k = trim_space raw in
      if is_empty url && (present || not (is_empty path))
      then err (set_without forward_auth_token forward_url)
      else if present && not (is_empty path)
      then err (both_set forward_auth_token forward_auth_token_file)
      else if present && is_empty k
      then err (only_spaces forward_auth_token)
      else if not (is_empty path)
      then opened_key (open_file check_forward_keys (λ ts key. store_key ts) (files path) unset)
      else if not (is_empty k)
      then checked_key k (check_header_value k)
      else ok no_key

  unfoldable pub resolve_forward_config : (Bytes → Option ℤ) → Getenv → Result Forwarding
  resolve_forward_config parse_duration getenv = do
    source ←
        resolve_key (getenv forward_url) (getenv forward_auth_token)
          (getenv forward_auth_token_file)
    shards ← positive_int_env getenv forward_shards
    queue_size ← positive_int_env getenv forward_queue_size
    queue_bytes ← positive_int_env getenv forward_queue_bytes
    timeout ← positive_duration_env parse_duration getenv forward_request_timeout
    initial ← positive_duration_env parse_duration getenv forward_retry_initial_interval
    longest ← positive_duration_env parse_duration getenv forward_retry_max_interval
    elapsed ← positive_duration_env parse_duration getenv forward_retry_max_elapsed_time
    ok (record {
      cfg = record {
        url = getenv forward_url;
        auth_token = answers source;
        shards = shards;
        queue_size = queue_size;
        queue_bytes = queue_bytes;
        request_timeout = timeout;
        retry_initial_interval = initial;
        retry_max_interval = longest;
        retry_max_elapsed_time = elapsed;
      };
      source = source;
    })
