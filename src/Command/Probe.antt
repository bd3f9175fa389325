-- ===== src/Command/Probe.antt =====
-- cmd/otherlode-collector/healthcheck.go: the subcommand, and the address that it shares with the
-- server. The parts of an address, the lookup of a port, the texts of addresses and of URLs, and the
-- request itself are parameters; `none` is their error.
pub mod Passes
use yukon_collector.Base.{
  ℕ, Bool, false, ◌||◌, Option, none, some, List, [], ◌∷◌, Bytes, codes, bytes_eq, is_empty, ◌==◌,
  if◌then◌else◌,
}
use yukon_collector.Text.Decimal.{itoa}
use yukon_collector.Command.Settings.{Getenv}

abbrev pub collector_addr : Bytes
collector_addr = codes "OTHERLODE_COLLECTOR_ADDR"

abbrev pub default_addr : Bytes
default_addr = codes ":4319"

abbrev pub healthz_path : Bytes
healthz_path = codes "/healthz"

unfoldable pub resolve_addr : Bytes → Bytes
resolve_addr raw = if is_empty raw then default_addr else raw

-- `is_unspecified` is false on a host that is no address; `url_text` is the text of an http URL.
pub record Net : Type 0 where
  pub split_host_port : Bytes → Option (Bytes × Bytes)
  pub lookup_port : Bytes → Option ℕ
  pub is_unspecified : Bytes → Bool
  pub join_host_port : (host port : Bytes) → Bytes
  pub url_text : (host path : Bytes) → Bytes
  pub get_status : (url : Bytes) → Option ℕ

module _ (net : Net) where
  abbrev pub probed_host : Bytes → Bytes
  probed_host host = if is_empty host || net.is_unspecified host then codes "127.0.0.1" else host

  abbrev pub at_port : Bytes → Option ℕ → Option Bytes
  at_port host none = none
  at_port host (some port) =
      some (net.url_text (net.join_host_port (probed_host host) (itoa port)) healthz_path)

  abbrev at_host : Option (Bytes × Bytes) → Option Bytes
  at_host none = none
  at_host (some (host, port)) = at_port host (net.lookup_port port)

  unfoldable pub healthz_url : Bytes → Option Bytes
  healthz_url addr = at_host (net.split_host_port addr)

  abbrev pub is_healthy : Option ℕ → Bool
  is_healthy none = false
  is_healthy (some status) = status == 200

  -- Whether the probe found no error.
  unfoldable pub run_healthcheck : Bytes → Bool
  run_healthcheck target = is_healthy (net.get_status target)

  abbrev probe : Option Bytes → Bool
  probe none = false
  probe (some target) = run_healthcheck target

  unfoldable pub healthcheck_command : Getenv → Bool
  healthcheck_command getenv = probe (healthz_url (resolve_addr (getenv collector_addr)))

  abbrev is_healthcheck : List Bytes → Bool
  is_healthcheck [] = false
  is_healthcheck (a ∷ []) = bytes_eq a (codes "healthcheck")
  is_healthcheck (a ∷ b ∷ args) = false

  unfoldable pub run_subcommand : List Bytes → Getenv → ℕ
  run_subcommand args getenv =
      if is_healthcheck args then (if healthcheck_command getenv then 0 else 1) else 2
