-- ===== src/Forward/Shards.antt =====
-- internal/forward/forward.go: all shards of the sink side by side, with the part of Shutdown that
-- they share. The mutex gives `closed` one value for all shards, and one channel is `stopping`.
-- `events` is not in the program: it records what is accepted and what ends, over all shards, oldest
-- first.
pub mod Routing
pub mod Owners
pub mod Trace
pub mod Reached
pub mod Fifo
pub mod Workers
pub mod Shutdown
pub mod Calls
pub mod Atomic
pub mod Bound
use yukon_collector.Base.{
  ℕ, zero, suc, ◌≡◌, Bool, true, false, some, List, [], ◌∷◌, ◌++◌, map, length, All,
}
use yukon_collector.Forward.Config.{Config}
use yukon_collector.Forward.Instance.{shard_key, shard_index}
use yukon_collector.Forward.Shard.{QueuedItem}
use yukon_collector.Forward.Worker.{
  System, Step, exited, idle_system, refuse_closed, reserve_bytes, refuse_bytes, send, refuse_full,
  close, stop, look, look_stopped, receive, wake_stopped, deliver_item, release_item, drain_item,
  end_item, release_drained, exit,
}

pub data ShardEvent : Type 0 where
  accepts ends : QueuedItem → ShardEvent

module _ {cfg : Config} {largest : ℕ} {s t : System} where
  -- The items that a step brings to the shard: `enqueue` picks the shard by the item's key.
  abbrev pub entering : Step cfg largest s t → List QueuedItem
  entering (refuse_closed item c e) = item ∷ []
  entering (reserve_bytes item sh fits c r e) = item ∷ []
  entering (refuse_bytes item sh c r e) = item ∷ []
  entering _ = []

  abbrev pub events_of : Step cfg largest s t → List ShardEvent
  events_of (send before behind item sh q r e) = accepts item ∷ []
  events_of (deliver_item item fuel now w cs d o e) = ends item ∷ []
  events_of (end_item item w d e) = ends item ∷ []
  events_of _ = []

  -- The steps of Shutdown, which all shards take together.
  abbrev pub is_shared : Step cfg largest s t → Bool
  is_shared (close q e) = true
  is_shared (stop c e) = true
  is_shared _ = false

pub record Shards : Type 0 where
  pub systems : List System
  pub events : List ShardEvent
  pub returned : Bool

unfoldable pub idle_systems : ℕ → List System
idle_systems zero = []
idle_systems (suc n) = idle_system ∷ idle_systems n

unfoldable pub idle_shards : ℕ → Shards
idle_shards n = record { systems = idle_systems n; events = []; returned = false }

-- The item goes to the shard at index `i` of `n`.
abbrev pub GoesTo : ℕ → ℕ → QueuedItem → Type 0
GoesTo n i item = shard_index (shard_key item.owner) n ≡ some i

abbrev pub close_one : System → System
close_one s = record s { closed = true }

abbrev pub stop_one : System → System
stop_one s = record s { stopping = true }

pub data ShardsStep (cfg : Config) (largest : ℕ) (f g : Shards) : Type 0 where
  at_one :
      (before behind : List System) (s t : System) (st : Step cfg largest s t)
      → f.systems ≡ before ++ s ∷ behind
      → is_shared st ≡ false
      → All (GoesTo (length f.systems) (length before)) (entering st)
      → g ≡ record f { systems = before ++ t ∷ behind; events = f.events ++ events_of st }
      → ShardsStep cfg largest f g
  close_all :
      All (λ (s : System). s.sending ≡ []) f.systems
      → g ≡ record f { systems = map close_one f.systems }
      → ShardsStep cfg largest f g
  stop_all :
      All (λ (s : System). s.closed ≡ true) f.systems
      → g ≡ record f { systems = map stop_one f.systems }
      → ShardsStep cfg largest f g
  return :
      All (λ (s : System). s.worker ≡ exited) f.systems
      → g ≡ record f { returned = true }
      → ShardsStep cfg largest f g

pub data ShardsReach (cfg : Config) (largest : ℕ) (f : Shards) : Shards → Type 0 where
  here : ShardsReach cfg largest f f
  next :
      {g h : Shards}
      → ShardsReach cfg largest f g
      → ShardsStep cfg largest g h
      → ShardsReach cfg largest f h
