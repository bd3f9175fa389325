-- ===== src/RateLimit.antt =====
-- internal/ratelimit/limiter.go: the clients that the limiter tracks. A `list.Element` is a visitor
-- with its address, the map takes a key to an address, and the front of `order` comes first.
-- A call of `allow` is one step, although it asks the bucket after it gave the lock back: a visitor
-- that is evicted in between is asked all the same, and forgotten. The buckets are those of
-- golang.org/x/time/rate, whose operations are parameters.
pub mod Elements
pub mod Invariant
pub mod Lru
pub mod Allow
pub mod Stale
pub mod Fits
pub mod Run
pub mod Clients
pub mod Build
pub mod Middleware
pub mod Tests
use yukon_collector.Base.{
  ℕ, zero, suc, ◌+◌, ◌-◌, ◌≡◌, Bool, true, false, ◌&&◌, Option, none, some, List, [], ◌∷◌, Bytes,
  bytes_eq, length, ltb, leb, ◌==◌, if◌then◌else◌, ℤ, pos, negsuc,
}

pub record Visitor (B : Type 0) : Type 0 where
  pub key : Bytes
  pub bucket : B
  pub last_seen : ℕ

pub record Element (B : Type 0) : Type 0 where
  pub address : ℕ
  pub value : Visitor B

pub record Limiter (B : Type 0) : Type 0 where
  pub stale_after : ℕ
  pub max_visitors : ℕ
  pub visitors : List (Bytes × ℕ)
  pub order : List (Element B)
  pub allocated : ℕ

abbrev pub default_stale_after : ℕ
default_stale_after = 600000000000

abbrev pub default_max_visitors : ℕ
default_max_visitors = 100000

abbrev pub new_limiter : {B : Type 0} → Limiter B
new_limiter = record {
  stale_after = default_stale_after;
  max_visitors = default_max_visitors;
  visitors = [];
  order = [];
  allocated = 0;
}

-- The map: looking a key up, and `delete`.
unfoldable pub lookup : Bytes → List (Bytes × ℕ) → Option ℕ
lookup k [] = none
lookup k ((q, a) ∷ m) = if bytes_eq q k then some a else lookup k m

unfoldable pub delete : Bytes → List (Bytes × ℕ) → List (Bytes × ℕ)
delete k [] = []
delete k ((q, a) ∷ m) = let rest = delete k m in if bytes_eq q k then rest else (q, a) ∷ rest

module _ {B : Type 0} where
  -- The list: reading an element, `Remove` and `Back`.
  unfoldable pub at_address : ℕ → List (Element B) → Option (Visitor B)
  at_address a [] = none
  at_address a (e ∷ es) = if e.address == a then some e.value else at_address a es

  unfoldable pub remove : ℕ → List (Element B) → List (Element B)
  remove a [] = []
  remove a (e ∷ es) = let rest = remove a es in if e.address == a then es else e ∷ rest

  unfoldable pub back : List (Element B) → Option (Element B)
  back [] = none
  back (e ∷ []) = some e
  back (e ∷ d ∷ es) = back (d ∷ es)

  abbrev pub without : Limiter B → Option (Element B) → Limiter B
  without l none = l
  without l (some e) = record l {
    visitors = delete e.value.key l.visitors;
    order = remove e.address l.order;
  }

  -- The loop that makes room; each round removes an element, so there are at most as many rounds as
  -- elements.
  unfoldable pub make_room : ℕ → Limiter B → Limiter B
  make_room zero l = l
  make_room (suc n) l =
      let rest = make_room n (without l (back l.order)) in
      if leb l.max_visitors (length l.visitors) && ltb 0 (length l.order) then rest else l

  abbrev pub push_front : Bytes → Visitor B → Limiter B → Limiter B
  push_front k v l = record l {
    visitors = (k, l.allocated) ∷ delete k l.visitors;
    order = record { address = l.allocated; value = v } ∷ l.order;
    allocated = suc l.allocated;
  }

  abbrev pub moved : ℕ → ℕ → Limiter B → Option (Visitor B) → Option (Limiter B)
  moved a now l none = none
  moved a now l (some v) = some (record l {
    order = record { address = a; value = record v { last_seen = now } } ∷ remove a l.order;
  })

  abbrev pub found : Bytes → B → ℕ → Limiter B → Option ℕ → Option (Limiter B)
  found k bucket now l none = some (
      push_front k (record { key = k; bucket = bucket; last_seen = now })
        (make_room (length l.order) l))
  found k bucket now l (some a) = moved a now l (at_address a l.order)

  -- The part of `allow` under the lock; the client's visitor is then the front one. `none` would be
  -- a key whose element is not in the list.
  unfoldable pub track : Bytes → B → ℕ → Limiter B → Option (Limiter B)
  track k bucket now l = found k bucket now l (lookup k l.visitors)

  -- One tick of the eviction loop; it too has at most as many rounds as there are elements.
  abbrev pub is_stale : ℕ → ℕ → Option (Element B) → Bool
  is_stale now stale_after none = false
  is_stale now stale_after (some e) = ltb stale_after (now - e.value.last_seen)

  unfoldable pub evict_stale : ℕ → ℕ → Limiter B → Limiter B
  evict_stale zero now l = l
  evict_stale (suc n) now l =
      let rest = evict_stale n now (without l (back l.order)) in
      if is_stale now l.stale_after (back l.order) then rest else l
