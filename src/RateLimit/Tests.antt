-- ===== src/RateLimit/Tests.antt =====
-- The limiter at concrete clients, with buckets that hold a number of tokens and never refill.
use yukon_collector.Base.{
  Option, none, some, Bytes, false, is_empty, ◌++◌, ℕ, zero, suc, ◌≡◌, ◌≤◌, refl, Bool, true, List,
  [], ◌∷◌, codes, bytes_eq, length, ℤ, pos, arith,
}
use yukon_collector.Text.Space.{trim_space}
use yukon_collector.Text.Parts.RoundTrip.{IsPart}
use yukon_collector.RateLimit.Clients.{client_ip, from_address}
use yukon_collector.RateLimit.Clients.Trusted.{client_ip_lem}
use yukon_collector.RateLimit.{Limiter, lookup, new_limiter, default_max_visitors, evict_stale}
use yukon_collector.RateLimit.Elements.{values}
use yukon_collector.RateLimit.Invariant.{Inv}
use yukon_collector.RateLimit.Lru.{lru}
use yukon_collector.RateLimit.Allow.{Answer, allow, ask_first, allow_lem}
use yukon_collector.RateLimit.Stale.{Ordered, recent, evict_stale_lem}
use yukon_collector.RateLimit.Run.{Event, request, tick, run, run_lem}

abbrev reserve_n : ℕ → ℕ → ℕ × ℤ
reserve_n now zero = (0, pos 1)
reserve_n now (suc n) = (n, pos 0)

abbrev ok : ℤ → Bool
ok r = true

abbrev delay_from : ℤ → ℕ → ℤ
delay_from r now = r

abbrev cancel_at : ℤ → ℕ → ℕ → ℕ
cancel_at r now b = b

abbrev two_clients : Limiter ℕ
two_clients = record {
  stale_after = 3;
  max_visitors = 2;
  visitors = (codes "b", 1) ∷ (codes "a", 0) ∷ [];
  order =
      record { address = 1; value = record { key = codes "b"; bucket = 0; last_seen = 9 } }
      ∷ record { address = 0; value = record { key = codes "a"; bucket = 5; last_seen = 4 } }
      ∷ [];
  allocated = 2;
}

two_clients-Inv : Inv two_clients
unfolding lookup bytes_eq
two_clients-Inv = record {
  distinct = ((record { keys = refl; addresses = omega arith }, _), (_, _));
  agree = λ k. refl;
  unique = (refl, (refl, _));
  sizes = refl;
  fresh = (omega arith, (omega arith, _));
}

allow_lem_example :
    (t : Limiter ℕ) × (a : Answer) × (allow 2 reserve_n ok delay_from cancel_at
        (codes "c")
        10
        two_clients
      ≡ some (t, a))
    × Inv t
    × (ask_first 2 reserve_n ok delay_from cancel_at 10
          (lru 2 (codes "c") 2 10 (values two_clients.order))
        ≡ some (values t.order, a))
    × (t.max_visitors ≡ 2)
allow_lem_example =
    allow_lem 2 reserve_n ok delay_from cancel_at (codes "c") 10 two_clients two_clients-Inv

evict_stale_lem_example :
    Inv (evict_stale 2 10 two_clients)
    × (values (evict_stale 2 10 two_clients).order ≡ recent 10 3 (values two_clients.order))
evict_stale_lem_example =
    evict_stale_lem 2 10 9 two_clients two_clients-Inv (omega arith) (omega arith, (omega arith, _))

abbrev events : List (ℕ × Event)
events =
    (1, request (codes "a"))
    ∷ (2, request (codes "b"))
    ∷ (2, request (codes "a"))
    ∷ (900000000000, tick)
    ∷ []

run_lem_example :
    (r : Limiter ℕ) × (last : ℕ) × (run 2 reserve_n ok delay_from cancel_at events new_limiter
      ≡ some r)
    × Inv r
    × Ordered last (values r.order)
    × (length r.order ≤ default_max_visitors)
run_lem_example =
    run_lem 2 reserve_n ok delay_from cancel_at 0 events
      (omega arith, (omega arith, (omega arith, (omega arith, _))))

abbrev no_port : Bytes → Option Bytes
no_port s = none

abbrev as_is : Bytes → Option Bytes
as_is s = some s

abbrev always : Bytes → Bool
always s = true

abbrev same_text : Bytes → Bytes
same_text s = s

abbrev no_prefix : Bytes → ℕ → Option Bytes
no_prefix s n = none

abbrev proxied : Bytes
proxied = codes " 10.0.0.7"

proxied-IsPart : IsPart b',' proxied
proxied-IsPart = (
  omega arith,
  (
    omega arith,
    (
      omega arith,
      (omega arith, (omega arith, (omega arith, (omega arith, (omega arith, (omega arith, _)))))),
    ),
  ),
)

proxied_trimmed : trim_space proxied ≡ codes "10.0.0.7"
unfolding trim_space
proxied_trimmed = refl

proxied_text : is_empty (trim_space proxied) ≡ false
unfolding trim_space is_empty
proxied_text = refl

header_named : is_empty (codes "X-Forwarded-For") ≡ false
unfolding is_empty
header_named = refl

client_ip_lem_example :
    (client_ip no_port as_is always same_text no_prefix
        (codes "X-Forwarded-For")
        128
        (record { header_lines = codes "1.2.3.4" ∷ proxied ∷ []; remote_addr = codes "10.0.0.1" })
      ≡ from_address no_port as_is always same_text no_prefix
          (codes "X-Forwarded-For")
          128
          (trim_space proxied))
    × (client_ip no_port as_is always same_text no_prefix (codes "X-Forwarded-For") 128 (record {
      header_lines = codes "1.2.3.4" ∷ (codes "5.6.7.8" ++ b',' ∷ proxied) ∷ [];
      remote_addr = codes "10.0.0.1";
    })
        ≡ from_address no_port as_is always same_text no_prefix
            (codes "X-Forwarded-For")
            128
            (trim_space proxied))
client_ip_lem_example =
    client_ip_lem no_port as_is always same_text no_prefix (codes "X-Forwarded-For") 128
      (codes "1.2.3.4" ∷ []) (codes "5.6.7.8") proxied (codes "10.0.0.1") header_named
      proxied-IsPart proxied_text
