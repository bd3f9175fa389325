-- ===== src/RateLimit/Clients.antt =====
-- internal/ratelimit/limiter.go: the key that a request is throttled on. `net.SplitHostPort` gives
-- the host, or `none`; `netip.ParseAddr` with the removal of the zone and of the IPv4-mapped prefix
-- gives an address or `none`; both are parameters, as are the texts of addresses and prefixes.
pub mod Trusted
use mathlib.Core.List.{reverse}
use yukon_collector.Base.{
  ℕ, ◌≡◌, refl, Bool, true, false, not, ◌&&◌, Option, none, some, List, [], ◌∷◌, ◌++◌, Bytes,
  is_empty, if◌then◌else◌,
}
use yukon_collector.Text.Space.{trim_space}
use yukon_collector.Text.Parts.{split, join}

-- The header's lines are those under the configured name.
pub record Request : Type 0 where
  pub header_lines : List Bytes
  pub remote_addr : Bytes

-- The loop that goes through the entries from the last to the first.
unfoldable pub first_entry : List Bytes → Bytes
first_entry [] = []
first_entry (p ∷ ps) =
    let rest = first_entry ps in if not (is_empty (trim_space p)) then trim_space p else rest

unfoldable pub last_header_value : Bytes → Bytes
last_header_value v = first_entry (reverse (split b',' v))

module _ {Addr : Type 0} (split_host : Bytes → Option Bytes) (parse_addr : Bytes → Option Addr)
    (is4 : Addr → Bool) (addr_text : Addr → Bytes) (prefix_text : Addr → ℕ → Option Bytes)
    (client_ip_header : Bytes) (ipv6_prefix : ℕ) where
  abbrev or_same : Bytes → Option Bytes → Bytes
  or_same s none = s
  or_same s (some t) = t

  abbrev strip_port : Bytes → Bytes
  strip_port addr = or_same addr (split_host addr)

  abbrev normal_of : Bytes → Option Addr → Bytes
  normal_of s none = s
  normal_of s (some addr) =
      if is4 addr then addr_text addr else or_same s (prefix_text addr ipv6_prefix)

  abbrev pub normalize_ip : Bytes → Bytes
  normalize_ip s = normal_of s (parse_addr s)

  abbrev pub from_address : Bytes → Bytes
  from_address addr = normalize_ip (strip_port addr)

  unfoldable pub client_ip : Request → Bytes
  client_ip r =
      let ip = last_header_value (join b',' r.header_lines) in
      if not (is_empty client_ip_header) && not (is_empty ip)
      then from_address ip
      else from_address r.remote_addr
