-- ===== src/Forward/Tests/Runs.antt =====
-- A run of one shard: an item is accepted, Shutdown begins, and the worker drains and exits.
use Prim.Native.Nat
use yukon_collector.Base.{◌+◌, ◌≤◌, ◌≡◌, refl, true, [], ◌∷◌, ◌++◌, length, arith}
use yukon_collector.Ingest.Paths.{payload_label}
use yukon_collector.Forward.Shard.{Shard, reserve, try_send, try_receive, release}
use yukon_collector.Forward.Sink.{size}
use yukon_collector.Forward.Deliver.{final_delivery_attempt}
use yukon_collector.Forward.Worker.{
  draining, exited, ending, ended, System, Reach, idle_system, here, next, reserve_bytes, send,
  close, stop, look_stopped, drain_item, end_item, release_drained, exit,
}
use yukon_collector.Forward.Worker.Invariant.{
  total, held, in_hand, outcomes, Reach-bytes, Reach-in_order, Reach_exited,
}
use yukon_collector.Forward.Tests.{settings, item, recovering}

abbrev pub one_item : Shard
one_item = record { queue = item ∷ []; bytes = 3 }

abbrev pub no_item : Shard
no_item = record { queue = []; bytes = 3 }

abbrev pub reserved : System
reserved = record idle_system { shard = record { queue = []; bytes = 3 }; sending = item ∷ [] }

abbrev pub queued : System
queued = record reserved { shard = one_item; sending = []; accepted_items = item ∷ [] }

abbrev shut : System
shut = record queued { closed = true }

abbrev pub stopped : System
stopped = record shut { stopping = true }

abbrev pub drains : System
drains = record stopped { worker = draining }

abbrev in_last_attempt : System
in_last_attempt = record drains { shard = no_item; worker = ending item }

abbrev attempted : System
attempted = record in_last_attempt {
  worker = ended item;
  counts = final_delivery_attempt recovering (payload_label item.path);
  ended_items = item ∷ [];
}

abbrev emptied : System
emptied = record attempted { shard = record { queue = []; bytes = 0 }; worker = draining }

abbrev finished : System
finished = record emptied { worker = exited }

to_stopped : Reach settings 3 idle_system stopped
unfolding reserve try_send
to_stopped =
    next
      (next
        (next (next here (reserve_bytes item no_item (omega arith) refl refl refl))
          (send [] [] item one_item refl refl refl))
        (close refl refl))
      (stop refl refl)

to_last_attempt : Reach settings 3 idle_system in_last_attempt
unfolding try_receive
to_last_attempt =
    next (next to_stopped (look_stopped refl refl refl)) (drain_item item no_item refl refl refl)

to_finished : Reach settings 3 idle_system finished
unfolding try_receive release
to_finished =
    next
      (next (next to_last_attempt (end_item item recovering refl refl))
        (release_drained item refl refl))
      (exit refl refl refl)

Reach-bytes_example :
    (stopped.shard.bytes ≡ total stopped.shard.queue + total stopped.sending + held stopped.worker)
    × (stopped.shard.bytes ≤ Nat.max (size settings.queue_bytes) 3)
    × (length stopped.shard.queue ≤ size settings.queue_size)
Reach-bytes_example = Reach-bytes to_stopped

Reach-in_order_example :
    (in_last_attempt.accepted_items
      ≡ in_last_attempt.ended_items
        ++ (in_hand in_last_attempt.worker ++ in_last_attempt.shard.queue))
    × (outcomes in_last_attempt.counts ≡ length in_last_attempt.ended_items)
Reach-in_order_example = Reach-in_order to_last_attempt

Reach_exited_example :
    (finished.accepted_items ≡ finished.ended_items)
    × (outcomes finished.counts ≡ length finished.accepted_items)
    × (finished.shard.bytes ≡ 0)
    × (finished.sending ≡ [])
Reach_exited_example = Reach_exited to_finished refl
