-- ===== src/Command/Start.antt =====
-- cmd/otherlode-collector/main.go: `main`, from the settings to the exit status. What the standard
-- library and the system give is the parameter `Outside`, and the operations of the buckets and of
-- addresses are those that RateLimit takes as parameters.
pub mod Closed
use yukon_collector.Base.{
  List, ℕ, Bool, true, false, Option, none, some, [], ◌∷◌, Bytes, codes, is_empty, if◌then◌else◌, ℤ,
  pos, negsuc,
}
use yukon_collector.Auth.{TokenSet, replace}
use yukon_collector.Metrics.Counters.{auth}
use yukon_collector.TokenFile.{Opened, at_least_one, watch}
use yukon_collector.Forward.Config.{Url}
use yukon_collector.Processor.Environment.{EnvironmentConfig}
use yukon_collector.Processor.Namespace.{NamespaceConfig}
use yukon_collector.Processor.Redaction.{RedactionConfig}
use yukon_collector.RateLimit.{Limiter}
use yukon_collector.RateLimit.Build.{
  LimiterOption, with_client_ip_header, with_prefix_bits, Built, new,
}
use yukon_collector.RateLimit.Allow.{Answer, allow}
use yukon_collector.RateLimit.Clients.{client_ip}
use yukon_collector.Command.Settings.{unparsable, Result, ok, err, ◌>>=◌, Getenv}
use yukon_collector.Command.Tokens.{AuthChoice, open_to_all, fixed, from_file, resolve_auth_tokens}
use yukon_collector.Command.Forwarding.{Forwarding, resolve_forward_config}
use yukon_collector.Command.Limits.{
  Float, is_positive, rate_limit_rps, rate_limit_burst, rate_limit_ipv6_prefix, resolve_rate_limit,
  resolve_ipv6_prefix, resolve_max_concurrent_decodes,
}
use yukon_collector.Command.Stamps.{
  environment_name, environment_action, namespace_name, namespace_action, resolve_environment,
  resolve_namespace,
}
use yukon_collector.Command.Redacting.{
  redact_blocked_values, redact_all_literals, resolve_redaction,
}
use yukon_collector.Command.Routes.{WebRequest, RouteConfig}
use yukon_collector.Command.Sinks.{BaseSink, choose_sink}
use yukon_collector.Command.Probe.{collector_addr, resolve_addr}

-- `parse_level` is `Level.UnmarshalText`.
pub record Outside : Type 0 where
  pub sha256 : Bytes → Bytes
  pub files : Bytes → Option Opened
  pub parse_duration : Bytes → Option ℤ
  pub parse_float : Bytes → Option Float
  pub compile : Bytes → Option (Bytes → Bool)
  pub parse_url : Bytes → Option Url
  pub parse_level : Bytes → Option ℤ
  pub processors : ℤ

abbrev pub log_level : Bytes
log_level = codes "OTHERLODE_COLLECTOR_LOG_LEVEL"

abbrev pub client_ip_header : Bytes
client_ip_header = codes "OTHERLODE_COLLECTOR_CLIENT_IP_HEADER"

-- `slog.LevelInfo`.
abbrev pub level_info : ℤ
level_info = pos 0

abbrev read_level : Option ℤ → Result ℤ
read_level none = err (unparsable log_level)
read_level (some level) = ok level

unfoldable pub resolve_log_level : (Bytes → Option ℤ) → Bytes → Result ℤ
resolve_log_level parse_level raw =
    if is_empty raw then ok level_info else read_level (parse_level raw)

pub record Settings : Type 0 where
  pub level : ℤ
  pub addr : Bytes
  pub auth : AuthChoice
  pub rps : Float
  pub burst : ℤ
  pub ipv6_prefix : ℤ
  pub header : Bytes
  pub max_decodes : ℤ
  pub forwarding : Forwarding
  pub environment : EnvironmentConfig
  pub namespace : NamespaceConfig
  pub redaction : RedactionConfig

-- The settings in the order in which `main` reads them; the first error ends the program.
unfoldable pub read_settings : Outside → Getenv → Result Settings
read_settings out getenv = do
  level ← resolve_log_level out.parse_level (getenv log_level)
  tokens ← resolve_auth_tokens out.sha256 out.files getenv
  rate ← resolve_rate_limit out.parse_float (getenv rate_limit_rps) (getenv rate_limit_burst)
  prefix ← resolve_ipv6_prefix (getenv rate_limit_ipv6_prefix)
  decodes ← resolve_max_concurrent_decodes out.processors getenv
  forwarding ← resolve_forward_config out.files out.parse_duration getenv
  environment ← resolve_environment (getenv environment_name) (getenv environment_action)
  namespace ← resolve_namespace (getenv namespace_name) (getenv namespace_action)
  redaction ←
      resolve_redaction out.compile (getenv redact_blocked_values) (getenv redact_all_literals)
  ok (record {
    level = level;
    addr = resolve_addr (getenv collector_addr);
    auth = tokens;
    rps = rate.0;
    burst = rate.1;
    ipv6_prefix = prefix;
    header = getenv client_ip_header;
    max_decodes = decodes;
    forwarding = forwarding;
    environment = environment;
    namespace = namespace;
    redaction = redaction;
  })

-- The tokens that the ingest routes require after re-reads of the token file, if there is one.
abbrev pub required :
    (sha256 : Bytes → Bytes) (reads : List (Option Opened)) → AuthChoice → Option TokenSet
required sha256 reads open_to_all = none
required sha256 reads (fixed tokens) = some tokens
required sha256 reads (from_file file) =
    some (watch auth at_least_one (replace sha256) file reads).applied

abbrev limiter_options : Settings → List LimiterOption
limiter_options s =
    with_prefix_bits s.ipv6_prefix
    ∷ (if is_empty s.header then [] else with_client_ip_header s.header ∷ [])

abbrev bits : ℤ → ℕ
bits (pos n) = n
bits (negsuc n) = 0

module _ {B R Addr : Type 0} (new_bucket : Float → ℤ → B) (reserve_n : ℕ → B → B × R)
    (is_ok : R → Bool) (delay_from : R → ℕ → ℤ) (cancel_at : R → ℕ → B → B)
    (split_host : Bytes → Option Bytes) (parse_addr : Bytes → Option Addr) (is4 : Addr → Bool)
    (addr_text : Addr → Bytes) (prefix_text : Addr → ℕ → Option Bytes) where
  -- The limiter's check of a request: `allow` on the key of the request.
  abbrev check_rate : Built Float B → WebRequest → Limiter B → Option (Limiter B × Answer)
  check_rate built q l =
      allow (new_bucket built.rate built.burst) reserve_n is_ok delay_from cancel_at
        (client_ip split_host parse_addr is4 addr_text prefix_text built.client_ip_header
          (bits built.ipv6_prefix) q.source)
        q.now l

  abbrev pub limiter_of : Settings → Option (WebRequest → Limiter B → Option (Limiter B × Answer))
  limiter_of s =
      if is_positive s.rps then some (check_rate (new s.rps s.burst (limiter_options s))) else none

  -- What `main` gives to `registerRoutes`, with the token set as it is after re-reads.
  unfoldable pub route_config :
      (sha256 : Bytes → Bytes) (reads : List (Option Opened)) → Settings → RouteConfig (Limiter B)
  route_config sha256 reads s = record {
    auth_tokens = required sha256 reads s.auth;
    allow = limiter_of s;
    max_decodes = s.max_decodes;
    environment = s.environment;
    namespace = s.namespace;
    redaction = s.redaction;
  }

-- The start, up to the server: the settings and the state of the sink.
unfoldable pub start_up : Outside → Getenv → Result (Settings × BaseSink)
start_up out getenv = do
  s ← read_settings out getenv
  sink ← choose_sink out.parse_url s.forwarding.cfg
  ok (s, sink)

-- How the server ends: it is closed, it fails, or a signal shuts it down, in time or not.
pub data ServerEnd : Type 0 where
  closed failed : ServerEnd
  signalled : (in_time : Bool) → ServerEnd

unfoldable pub exit_status : {A : Type 0} → Result A → ServerEnd → ℕ
exit_status (err e) end = 1
exit_status (ok a) failed = 1
exit_status (ok a) (signalled false) = 1
exit_status (ok a) (signalled true) = 0
exit_status (ok a) closed = 0
