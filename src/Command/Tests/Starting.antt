-- ===== src/Command/Tests/Starting.antt =====
-- The start on one token and no other variable.
use yukon_collector.Base.{
  ℕ, zero, suc, ◌<◌, ◌≡◌, ◌⊎◌, refl, Bool, true, false, Option, none, some, List, [], ◌∷◌, Bytes,
  codes, bytes_eq, is_empty, length, if◌then◌else◌, ℤ, pos,
}
use yukon_collector.Auth.{store, new_token_set}
use yukon_collector.Auth.Accepts.{Allowed}
use yukon_collector.Processor.Action.{parse_action}
use yukon_collector.RateLimit.{Limiter, new_limiter}
use yukon_collector.Command.Settings.{ok, Getenv, positive_int_env, positive_duration_env}
use yukon_collector.RateLimit.Build.{default_ipv6_prefix}
use yukon_collector.Command.Limits.{
  Float, rate_limit_rps, rate_limit_burst, rate_limit_ipv6_prefix, resolve_rate_limit,
  resolve_ipv6_prefix, resolve_max_concurrent_decodes, default_rate_limit_rps,
  default_rate_limit_burst,
}
use yukon_collector.Command.Tokens.{
  auth_token_variable, fixed, trim_entries, parse_token_list, resolve_auth_tokens,
}
use yukon_collector.Text.Parts.{split}
use yukon_collector.Text.Space.{trim_space}
use yukon_collector.Text.Utf8.{valid_string}
use yukon_collector.Command.Redacting.{
  trim_return, compile_lines, redact_blocked_values, redact_all_literals, resolve_redaction,
}
use yukon_collector.Command.Forwarding.{no_key, resolve_key, resolve_forward_config}
use yukon_collector.Command.Stamps.{
  no_environment, no_namespace, environment_name, environment_action, namespace_name,
  namespace_action, resolve_environment, resolve_namespace,
}
use yukon_collector.Command.Probe.{collector_addr, default_addr, resolve_addr}
use yukon_collector.Command.Routes.{RouteConfig, Server, serve}
use yukon_collector.Command.Routes.Admission.{Spares}
use yukon_collector.Command.Sinks.{log_only, choose_sink}
use yukon_collector.Command.Start.{
  Outside, Settings, level_info, log_level, client_ip_header, resolve_log_level, read_settings,
  route_config, start_up,
}
use yukon_collector.Command.Start.Closed.{IsOpened, start_up-IsClosed}
use yukon_collector.Command.Tests.{keep, files, no_duration}
use yukon_collector.Command.Tests.Serving.{taking, wary, decoders, web_request}

abbrev secured : Getenv
secured name = if bytes_eq name auth_token_variable then codes "alpha" else []

abbrev outside : Outside
outside = record {
  sha256 = keep;
  files = files;
  parse_duration = no_duration;
  parse_float = λ v. none;
  compile = λ v. none;
  parse_url = λ v. none;
  parse_level = λ v. none;
  processors = pos 4;
}

abbrev in_force : Settings
in_force = record {
  level = level_info;
  addr = default_addr;
  auth = fixed (store keep (codes "alpha" ∷ []));
  rps = default_rate_limit_rps;
  burst = default_rate_limit_burst;
  ipv6_prefix = default_ipv6_prefix;
  header = [];
  max_decodes = pos 4;
  forwarding = record {
    cfg = record {
      url = [];
      auth_token = none;
      shards = pos 0;
      queue_size = pos 0;
      queue_bytes = pos 0;
      request_timeout = pos 0;
      retry_initial_interval = pos 0;
      retry_max_interval = pos 0;
      retry_max_elapsed_time = pos 0;
    };
    source = no_key;
  };
  environment = no_environment;
  namespace = no_namespace;
  redaction = record { blocked_values = []; all_literals = false };
}

-- A bucket is its number of tokens.
abbrev reserve_one : ℕ → ℕ → ℕ × Bool
reserve_one now zero = (zero, false)
reserve_one now (suc n) = (n, true)

abbrev no_delay : Bool → ℕ → ℤ
no_delay r now = pos 0

abbrev cancel : Bool → ℕ → ℕ → ℕ
cancel r now b = b

abbrev burst_of : Float → ℤ → ℕ
burst_of rps burst = 20

abbrev same_text : Bytes → Option Bytes
same_text v = some v

abbrev is4 : Bytes → Bool
is4 a = true

abbrev prefix_of : Bytes → ℕ → Option Bytes
prefix_of a n = some a

abbrev secured_config : RouteConfig (Limiter ℕ)
secured_config =
    route_config burst_of reserve_one (λ r. r) no_delay cancel same_text same_text is4 keep
      prefix_of keep (none ∷ []) in_force

reads_level : resolve_log_level outside.parse_level (secured log_level) ≡ ok level_info
unfolding resolve_log_level bytes_eq is_empty
reads_level = refl

reads_auth : resolve_auth_tokens keep files secured ≡ ok in_force.auth
unfolding resolve_auth_tokens bytes_eq is_empty parse_token_list trim_entries split trim_space
    new_token_set
reads_auth = refl

reads_rate :
    resolve_rate_limit outside.parse_float (secured rate_limit_rps) (secured rate_limit_burst)
    ≡ ok (in_force.rps, in_force.burst)
unfolding resolve_rate_limit bytes_eq is_empty
reads_rate = refl

reads_prefix : resolve_ipv6_prefix (secured rate_limit_ipv6_prefix) ≡ ok in_force.ipv6_prefix
unfolding resolve_ipv6_prefix bytes_eq is_empty
reads_prefix = refl

reads_decodes : resolve_max_concurrent_decodes (pos 4) secured ≡ ok (pos 4)
unfolding resolve_max_concurrent_decodes positive_int_env bytes_eq is_empty
reads_decodes = refl

reads_forwarding : resolve_forward_config files no_duration secured ≡ ok in_force.forwarding
unfolding resolve_forward_config resolve_key positive_int_env positive_duration_env bytes_eq
    is_empty trim_space
reads_forwarding = refl

reads_environment :
    resolve_environment (secured environment_name) (secured environment_action) ≡ ok no_environment
unfolding resolve_environment trim_space valid_string parse_action bytes_eq is_empty
reads_environment = refl

reads_namespace :
    resolve_namespace (secured namespace_name) (secured namespace_action) ≡ ok no_namespace
unfolding resolve_namespace trim_space valid_string parse_action bytes_eq is_empty
reads_namespace = refl

reads_redaction :
    resolve_redaction outside.compile (secured redact_blocked_values) (secured redact_all_literals)
    ≡ ok in_force.redaction
unfolding resolve_redaction compile_lines split trim_return trim_space bytes_eq is_empty
reads_redaction = refl

reads_addr :
    (resolve_addr (secured collector_addr) ≡ default_addr) × (secured client_ip_header ≡ [])
unfolding resolve_addr bytes_eq is_empty
reads_addr = (refl, refl)

reads_all : read_settings outside secured ≡ ok in_force
unfolding read_settings
reads_all =
    rw
      (
        reads_level, reads_auth, reads_rate, reads_prefix, reads_decodes, reads_forwarding,
        reads_environment, reads_namespace, reads_redaction, reads_addr.0, reads_addr.1,
      )
      refl

starts : start_up outside secured ≡ ok (in_force, log_only [])
unfolding start_up choose_sink is_empty
starts = rw reads_all refl

not-IsOpened : ¬ IsOpened secured
unfolding bytes_eq
not-IsOpened o = cc o.0

abbrev ready : Server ℕ (Limiter ℕ)
ready = record { state = 0; in_use = 0; limiter = new_limiter }

start_up-IsClosed_example :
    (tokens : List Bytes) × (0 < length tokens)
    × (secured_config.auth_tokens ≡ some (store keep tokens))
    × (Allowed keep tokens web_request.authorization
        ⊎ Spares ready
            (serve decoders keep keep secured_config taking none web_request ready)
            (serve decoders keep keep secured_config wary none web_request ready))
start_up-IsClosed_example =
    start_up-IsClosed burst_of reserve_one (λ r. r) no_delay cancel same_text same_text is4 keep
      prefix_of outside secured (none ∷ []) in_force (log_only []) decoders keep taking wary none
      web_request ready starts not-IsOpened
