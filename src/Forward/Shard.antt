-- ===== src/Forward/Shard.antt =====
-- internal/forward/forward.go: one shard, its queue and its byte count. `bytes` is an `int` that no
-- sum of body lengths in memory overflows; `release` stays above 0 by `Forward.Worker.Invariant`.
pub mod Admission
use yukon_collector.Base.{
  ℕ, ◌+◌, ◌-◌, ◌<◌, ◌≡◌, Bool, true, false, ◌&&◌, ◌||◌, Option, none, some, List, [], ◌∷◌, ◌++◌,
  Bytes, length, ltb, leb, if◌then◌else◌,
}
use yukon_collector.Forward.Instance.{Instance}

pub record QueuedItem : Type 0 where
  pub owner : Instance
  pub path : Bytes
  pub body : Bytes

pub record Shard : Type 0 where
  pub queue : List QueuedItem
  pub bytes : ℕ

unfoldable pub reserve : ℕ → ℕ → Shard → Shard × Bool
reserve n limit sh =
    if ltb 0 sh.bytes && ltb limit (sh.bytes + n)
    then (sh, false)
    else (record sh { bytes = sh.bytes + n }, true)

unfoldable pub release : ℕ → Shard → Shard
release n sh = record sh { bytes = sh.bytes - n }

unfoldable pub held_bytes : Shard → ℕ
held_bytes sh = sh.bytes

-- The send on a channel with room for `queue_size` items, or its `default` case.
unfoldable pub try_send : ℕ → QueuedItem → Shard → Option Shard
try_send queue_size item sh =
    if ltb (length sh.queue) queue_size
    then some (record sh { queue = sh.queue ++ item ∷ [] })
    else none

-- The receive from the channel, if it holds an item.
unfoldable pub try_receive : Shard → Option (QueuedItem × Shard)
try_receive sh = elim sh.queue [ [] ↦ none | item ∷ rest ↦ some (item, record sh { queue = rest }) ]

abbrev or_roll_back : ℕ → Shard → Option Shard → Shard × Bool
or_roll_back n reserved none = (release n reserved, false)
or_roll_back n reserved (some sent) = (sent, true)

abbrev send_reserved : ℕ → QueuedItem → Shard × Bool → Shard × Bool
send_reserved queue_size item (sh, false) = (sh, false)
send_reserved queue_size item (sh, true) =
    or_roll_back (length item.body) sh (try_send queue_size item sh)

-- The part of `enqueue` behind the shutdown check: reserve the bytes, send, and give the bytes back
-- if the queue is full.
pub enqueue_shard : ℕ → ℕ → QueuedItem → Shard → Shard × Bool
enqueue_shard queue_size queue_bytes item sh =
    send_reserved queue_size item (reserve (length item.body) queue_bytes sh)
