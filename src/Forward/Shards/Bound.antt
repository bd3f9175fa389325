-- ===== src/Forward/Shards/Bound.antt =====
-- How long the workers can go on once Shutdown has begun.
use yukon_collector.Base.{
  ℕ, suc, ◌+◌, ◌*◌, ◌<◌, ◌≤◌, ◌≡◌, ap, true, List, [], ◌∷◌, ◌++◌, length, All, All-append,
  All-split, arith,
}
use yukon_collector.Forward.Config.{Config}
use yukon_collector.Forward.Shard.{release, try_receive}
use yukon_collector.Forward.Worker.{
  WorkerState, looking, waiting, draining, exited, delivering, delivered, ending, ended, System,
  Step, refuse_closed, reserve_bytes, refuse_bytes, send, refuse_full, close, stop, look,
  look_stopped, receive, wake_stopped, deliver_item, release_item, drain_item, end_item,
  release_drained, exit, by_worker,
}
use yukon_collector.Forward.Worker.Drain.{steps_left, work_left}
use yukon_collector.Forward.Shards.{Shards}
use yukon_collector.Forward.Shards.Workers.{WorkersRun, all_rest, one_works}

-- The items in the queues of the shards.
abbrev pub queued_items : List System → ℕ
queued_items [] = 0
queued_items (s ∷ ss) = length s.shard.queue + queued_items ss

abbrev pub steps : {cfg : Config} {largest : ℕ} {f g : Shards} → WorkersRun cfg largest f g → ℕ
steps all_rest = 0
steps (one_works before behind s t st own q e run) = suc (steps run)

unfoldable pub work_of : List System → ℕ
work_of [] = 0
work_of (s ∷ ss) = work_left s + work_of ss

pub work_of-append : (ss ts : List System) → work_of (ss ++ ts) ≡ work_of ss + work_of ts
unfolding work_of
work_of-append [] ts = omega arith
work_of-append (s ∷ ss) ts = omega (arith, work_of-append ss ts)

steps_left-le : (w : WorkerState) → steps_left w ≤ 6
steps_left-le looking = omega arith
steps_left-le waiting = omega arith
steps_left-le draining = omega arith
steps_left-le exited = omega arith
steps_left-le (delivering item) = omega arith
steps_left-le (delivered item) = omega arith
steps_left-le (ending item) = omega arith
steps_left-le (ended item) = omega arith

work_of-le : (ss : List System) → work_of ss ≤ 3 * queued_items ss + 6 * length ss
unfolding work_of
work_of-le [] = omega arith
work_of-le (s ∷ ss) = omega (arith, work_of-le ss, steps_left-le s.worker)

module _ {cfg : Config} {largest : ℕ} where
  -- The worker ends no shutdown, and each of its steps brings it nearer to its exit.
  pub worker-Shrinks :
      {s t : System} (st : Step cfg largest s t)
      → by_worker st ≡ true
      → s.stopping ≡ true
      → (t.stopping ≡ true) × (work_left t < work_left s)
  unfolding try_receive release
  worker-Shrinks (refuse_closed item c e) h k = absurd (cc)
  worker-Shrinks (reserve_bytes item sh fits c r e) h k = absurd (cc)
  worker-Shrinks (refuse_bytes item sh c r e) h k = absurd (cc)
  worker-Shrinks (send before behind item sh q r e) h k = absurd (cc)
  worker-Shrinks (refuse_full before behind item q r e) h k = absurd (cc)
  worker-Shrinks (close q e) h k = absurd (cc)
  worker-Shrinks (stop c e) h k = absurd (cc)
  worker-Shrinks (look w c e) h k = absurd (cc)
  worker-Shrinks (look_stopped w c e) h k = rw e (ground arith)
  worker-Shrinks (receive item sh w r e) h k = rw e (ground arith)
  worker-Shrinks (wake_stopped w c e) h k = rw e (ground arith)
  worker-Shrinks (deliver_item item fuel now w cs d o e) h k = rw e (ground arith)
  worker-Shrinks (release_item item w e) h k = rw e (ground arith)
  worker-Shrinks (drain_item item sh w r e) h k = rw e (ground arith)
  worker-Shrinks (end_item item w d e) h k = rw e (ground arith)
  worker-Shrinks (release_drained item w e) h k = rw e (ground arith)
  worker-Shrinks (exit w r e) h k = rw e (ground arith)

  steps-work :
      {f g : Shards} (run : WorkersRun cfg largest f g)
      → All (λ (s : System). s.stopping ≡ true) f.systems
      → steps run + work_of g.systems ≤ work_of f.systems
  unfolding work_of
  steps-work all_rest h = omega arith
  steps-work {f = f} (one_works {g = m} before behind s t st own q e run) h =
      let Stopped : System → Type 0 = λ x. x.stopping ≡ true in
      let (front, (own_stop, rest)) = All-split Stopped before (s ∷ behind) (rw q at h) in
      let (still, less) = worker-Shrinks st own own_stop in
      let systems : m.systems ≡ before ++ t ∷ behind = ap (λ x. x.systems) e in
      let ih =
        steps-work run (rw systems (All-append Stopped before (t ∷ behind) front (still, rest))) in
      omega (
        arith,
        ih,
        less,
        ap work_of q,
        ap work_of systems,
        work_of-append before (s ∷ behind),
        work_of-append before (t ∷ behind),
      )

  -- Once Shutdown has begun, no run of the workers is longer than three steps for each queued item
  -- and six for each shard.
  pub steps-le :
      {f g : Shards} (run : WorkersRun cfg largest f g)
      → All (λ (s : System). s.stopping ≡ true) f.systems
      → steps run ≤ 3 * queued_items f.systems + 6 * length f.systems
  steps-le {f = f} run h = omega (arith, steps-work run h, work_of-le f.systems)
