-- ===== src/Forward/Tests/TwoShards.antt =====
-- A run of a sink with two shards: each accepts an item, and Shutdown begins.
use yukon_collector.Base.{
  Option, some, ◌≡◌, refl, true, false, [], ◌∷◌, ◌++◌, ◌+◌, ◌*◌, ◌≤◌, length, codes, All, arith,
}
use yukon_collector.Text.Decimal.{itoa}
use yukon_collector.Ingest.Paths.{manifest_path}
use yukon_collector.Forward.Instance.{Instance, shard_key, shard_index}
use yukon_collector.Forward.Shard.{QueuedItem, reserve, try_send}
use yukon_collector.Forward.Worker.{System, Step, idle_system, reserve_bytes, send, look_stopped}
use yukon_collector.Forward.Shards.{
  accepts, Shards, idle_systems, idle_shards, GoesTo, close_one, stop_one, ShardsStep, at_one,
  close_all, stop_all, ShardsReach, here, next,
}
use yukon_collector.Forward.Shards.Trace.{accepted_of, ended_of}
use yukon_collector.Forward.Shards.Owners.{only}
use yukon_collector.Forward.Shards.Fifo.{waiting_of, Serves, ShardsReach-Serves}
use yukon_collector.Forward.Shards.Bound.{queued_items, steps, steps-le}
use yukon_collector.Forward.Shards.Workers.{WorkersRun, all_rest, one_works, Backend, Answered}
use yukon_collector.Forward.Shards.Shutdown.{IsFinished, Shutdown_returns}
use yukon_collector.Forward.Sink.{ForwardingSink, SinkError, enqueue}
use yukon_collector.Forward.Shards.Atomic.{Agree, accepted_unless, enqueue_call}
use yukon_collector.Forward.Tests.{settings, item, recovering, settings-IsRetrying}
use yukon_collector.Forward.Tests.Runs.{no_item, one_item, reserved, queued, stopped, drains}

abbrev pub other : QueuedItem
other = record {
  owner = record { namespace = codes "team"; service = codes "shop"; id = codes "c" };
  path = manifest_path;
  body = 7 ∷ [];
}

abbrev other_reserved : System
other_reserved = record idle_system {
  shard = record { queue = []; bytes = 1 };
  sending = other ∷ [];
}

abbrev other_queued : System
other_queued = record other_reserved {
  shard = record { queue = other ∷ []; bytes = 1 };
  sending = [];
  accepted_items = other ∷ [];
}

abbrev both_queued : Shards
both_queued = record {
  systems = other_queued ∷ queued ∷ [];
  events = accepts item ∷ accepts other ∷ [];
  returned = false;
}

abbrev both_stopped : Shards
both_stopped = record both_queued {
  systems = stop_one (close_one other_queued) ∷ stop_one (close_one queued) ∷ [];
}

item-GoesTo : GoesTo 2 1 item
unfolding shard_index shard_key itoa
item-GoesTo = refl

other-GoesTo : GoesTo 2 0 other
unfolding shard_index shard_key itoa
other-GoesTo = refl

takes_item : Step settings 3 idle_system reserved
unfolding reserve
takes_item = reserve_bytes item no_item (omega arith) refl refl refl

sends_item : Step settings 3 reserved queued
unfolding try_send
sends_item = send [] [] item one_item refl refl refl

takes_other : Step settings 3 idle_system other_reserved
unfolding reserve
takes_other = reserve_bytes other (record { queue = []; bytes = 1 }) (omega arith) refl refl refl

sends_other : Step settings 3 other_reserved other_queued
unfolding try_send
sends_other = send [] [] other (record { queue = other ∷ []; bytes = 1 }) refl refl refl

to_both_queued : ShardsReach settings 3 (idle_shards 2) both_queued
unfolding idle_shards idle_systems takes_item sends_item takes_other sends_other
to_both_queued =
    next
      (next
        (next
          (next here (
            at_one (idle_system ∷ []) [] idle_system reserved takes_item refl refl (item-GoesTo, tt)
              refl))
          (at_one (idle_system ∷ []) [] reserved queued sends_item refl refl tt refl))
        (at_one [] (queued ∷ []) idle_system other_reserved takes_other refl refl (other-GoesTo, tt)
          refl))
      (at_one [] (queued ∷ []) other_reserved other_queued sends_other refl refl tt refl)

to_both_stopped : ShardsReach settings 3 (idle_shards 2) both_stopped
to_both_stopped =
    next (next to_both_queued (close_all (refl, (refl, tt)) refl))
      (stop_all (refl, (refl, tt)) refl)

ShardsReach-Serves_example : Serves both_queued.events (waiting_of both_queued)
ShardsReach-Serves_example = ShardsReach-Serves 2 to_both_queued

abbrev backend : Backend
backend = record { world = λ f item. recovering; clock = λ f. length f.events }

Shutdown_returns_example :
    (g : Shards) × (run : WorkersRun settings 3 both_stopped g) × Answered backend run
    × ShardsStep settings 3 g (record g { returned = true })
    × All (IsFinished settings 3) g.systems
    × (accepted_of g.events ≡ accepted_of both_stopped.events)
    × ((o : Instance) → only o (ended_of g.events) ≡ only o (accepted_of both_stopped.events))
Shutdown_returns_example =
    Shutdown_returns settings 3 backend settings-IsRetrying (λ f item i. omega arith) 2 both_stopped
      to_both_stopped (refl, (refl, tt))

abbrev pub both_in_sink : ForwardingSink
both_in_sink = record {
  cfg = settings;
  shards = record { queue = other ∷ []; bytes = 1 } ∷ record { queue = item ∷ []; bytes = 3 } ∷ [];
  closed = false;
  counts = [];
}

both_queued-Agree : Agree settings both_queued both_in_sink
both_queued-Agree = record { same_cfg = refl; same_shards = refl; same_closed = (refl, (refl, tt)) }

enqueue_call_example :
    (answer : ForwardingSink × Option SinkError) × (enqueue both_in_sink item ≡ some answer)
    × (g : Shards) × ShardsReach settings 3 both_queued g
    × Agree settings g answer.0
    × (g.events ≡ both_queued.events ++ accepted_unless item answer.1)
enqueue_call_example =
    enqueue_call settings 3 both_queued both_in_sink item both_queued-Agree (omega arith)
      (omega arith) (omega arith)

-- The worker of the second shard sees that Shutdown has begun.
one_looks :
    WorkersRun settings 3 both_stopped
      (record both_stopped { systems = stop_one (close_one other_queued) ∷ drains ∷ [] })
one_looks =
    one_works (stop_one (close_one other_queued) ∷ []) [] stopped drains
      (look_stopped refl refl refl) refl refl refl all_rest

steps-le_example :
    steps one_looks ≤ 3 * queued_items both_stopped.systems + 6 * length both_stopped.systems
steps-le_example = steps-le one_looks (refl, (refl, tt))
