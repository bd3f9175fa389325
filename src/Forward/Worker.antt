-- ===== src/Forward/Worker.antt =====
-- internal/forward/forward.go: one shard with the callers of `enqueue`, Shutdown and its worker, as
-- they interleave. Shards share nothing but `closed` and `stopping`. A caller holds the read lock
-- from its shutdown check to its send, and the lock that sets `closed` waits for all of them.
-- `accepted` and `ended` are not in the program: they record the items sent to the queue and the
-- items whose outcome was counted, oldest first.
pub mod Invariant
pub mod Drain
use yukon_collector.Base.{
  ℕ, ◌+◌, ◌≤◌, ◌≡◌, Bool, true, false, Option, none, some, List, [], ◌∷◌, ◌++◌, length,
}
use yukon_collector.Metrics.Counters.{Count, forward_refused, RefuseReason}
use yukon_collector.Ingest.Paths.{payload_label}
use yukon_collector.Forward.Config.{Config}
use yukon_collector.Forward.Shard.{QueuedItem, Shard, reserve, release, try_send, try_receive}
use yukon_collector.Forward.Sink.{size}
use yukon_collector.Forward.Deliver.{World, deliver, final_delivery_attempt}

-- Where the worker stands in `runShard` or `drain`: before the first select, in the second, with an
-- item, and with an item whose bytes it has still to release.
pub data WorkerState : Type 0 where
  looking waiting draining exited : WorkerState
  delivering delivered ending ended : QueuedItem → WorkerState

pub record System : Type 0 where
  pub shard : Shard
  pub sending : List QueuedItem
  pub closed : Bool
  pub stopping : Bool
  pub worker : WorkerState
  pub counts : List Count
  pub accepted_items : List QueuedItem
  pub ended_items : List QueuedItem

abbrev pub idle_system : System
idle_system = record {
  shard = record { queue = []; bytes = 0 };
  sending = [];
  closed = false;
  stopping = false;
  worker = looking;
  counts = [];
  accepted_items = [];
  ended_items = [];
}

abbrev pub count_refused : System → QueuedItem → RefuseReason → List Count
count_refused s item reason = s.counts ++ forward_refused (payload_label item.path) reason ∷ []

-- One step of one of them; `largest` bounds the bodies that callers bring.
pub data Step (cfg : Config) (largest : ℕ) (s t : System) : Type 0 where
  refuse_closed :
      (item : QueuedItem)
      → s.closed ≡ true
      → t ≡ record s { counts = count_refused s item RefuseReason.shutting_down }
      → Step cfg largest s t
  reserve_bytes :
      (item : QueuedItem) (sh : Shard)
      → length item.body ≤ largest
      → s.closed ≡ false
      → reserve (length item.body) (size cfg.queue_bytes) s.shard ≡ (sh, true)
      → t ≡ record s { shard = sh; sending = item ∷ s.sending }
      → Step cfg largest s t
  refuse_bytes :
      (item : QueuedItem) (sh : Shard)
      → s.closed ≡ false
      → reserve (length item.body) (size cfg.queue_bytes) s.shard ≡ (sh, false)
      → t ≡ record s { counts = count_refused s item RefuseReason.queue_full; shard = sh }
      → Step cfg largest s t
  send :
      (before behind : List QueuedItem) (item : QueuedItem) (sh : Shard)
      → s.sending ≡ before ++ item ∷ behind
      → try_send (size cfg.queue_size) item s.shard ≡ some sh
      → t ≡ record s {
        shard = sh;
        sending = before ++ behind;
        accepted_items = s.accepted_items ++ item ∷ [];
      }
      → Step cfg largest s t
  refuse_full :
      (before behind : List QueuedItem) (item : QueuedItem)
      → s.sending ≡ before ++ item ∷ behind
      → try_send (size cfg.queue_size) item s.shard ≡ none
      → t ≡ record s {
        shard = release (length item.body) s.shard;
        sending = before ++ behind;
        counts = count_refused s item RefuseReason.queue_full;
      }
      → Step cfg largest s t
  close : s.sending ≡ [] → t ≡ record s { closed = true } → Step cfg largest s t
  stop : s.closed ≡ true → t ≡ record s { stopping = true } → Step cfg largest s t
  look :
      s.worker ≡ looking
      → s.stopping ≡ false
      → t ≡ record s { worker = waiting }
      → Step cfg largest s t
  look_stopped :
      s.worker ≡ looking
      → s.stopping ≡ true
      → t ≡ record s { worker = draining }
      → Step cfg largest s t
  receive :
      (item : QueuedItem) (sh : Shard)
      → s.worker ≡ waiting
      → try_receive s.shard ≡ some (item, sh)
      → t ≡ record s { shard = sh; worker = delivering item }
      → Step cfg largest s t
  wake_stopped :
      s.worker ≡ waiting
      → s.stopping ≡ true
      → t ≡ record s { worker = draining }
      → Step cfg largest s t
  deliver_item :
      (item : QueuedItem) (fuel now : ℕ) (w : World) (cs : List Count)
      → s.worker ≡ delivering item
      → deliver fuel w cfg item now ≡ some cs
      → t ≡ record s {
        worker = delivered item;
        counts = s.counts ++ cs;
        ended_items = s.ended_items ++ item ∷ [];
      }
      → Step cfg largest s t
  release_item :
      (item : QueuedItem)
      → s.worker ≡ delivered item
      → t ≡ record s { shard = release (length item.body) s.shard; worker = looking }
      → Step cfg largest s t
  drain_item :
      (item : QueuedItem) (sh : Shard)
      → s.worker ≡ draining
      → try_receive s.shard ≡ some (item, sh)
      → t ≡ record s { shard = sh; worker = ending item }
      → Step cfg largest s t
  end_item :
      (item : QueuedItem) (w : World)
      → s.worker ≡ ending item
      → t ≡ record s {
        worker = ended item;
        counts = s.counts ++ final_delivery_attempt w (payload_label item.path);
        ended_items = s.ended_items ++ item ∷ [];
      }
      → Step cfg largest s t
  release_drained :
      (item : QueuedItem)
      → s.worker ≡ ended item
      → t ≡ record s { shard = release (length item.body) s.shard; worker = draining }
      → Step cfg largest s t
  exit :
      s.worker ≡ draining
      → try_receive s.shard ≡ none
      → t ≡ record s { worker = exited }
      → Step cfg largest s t

pub data Reach (cfg : Config) (largest : ℕ) (s : System) : System → Type 0 where
  here : Reach cfg largest s s
  next : {t u : System} → Reach cfg largest s t → Step cfg largest t u → Reach cfg largest s u

-- The steps that the worker itself takes.
abbrev pub by_worker : {cfg : Config} {largest : ℕ} {s t : System} → Step cfg largest s t → Bool
by_worker (look w c e) = true
by_worker (look_stopped w c e) = true
by_worker (receive item sh w r e) = true
by_worker (wake_stopped w c e) = true
by_worker (deliver_item item fuel now w cs d o e) = true
by_worker (release_item item w e) = true
by_worker (drain_item item sh w r e) = true
by_worker (end_item item w d e) = true
by_worker (release_drained item w e) = true
by_worker (exit w r e) = true
by_worker _ = false
