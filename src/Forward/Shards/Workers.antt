-- ===== src/Forward/Shards/Workers.antt =====
-- internal/forward/forward.go: runs of the workers alone, over all shards of the sink.
use yukon_collector.Base.{◌≡◌, refl, true, false, ℕ, List, [], ◌∷◌, ◌++◌}
use yukon_collector.Forward.Config.{Config}
use yukon_collector.Forward.Shard.{QueuedItem}
use yukon_collector.Forward.Deliver.{World}
use yukon_collector.Forward.Worker.{
  System, Step, refuse_closed, reserve_bytes, refuse_bytes, send, refuse_full, close, stop, look,
  look_stopped, receive, wake_stopped, deliver_item, release_item, drain_item, end_item,
  release_drained, exit, by_worker,
}
use yukon_collector.Forward.Worker.Drain.{AnsweredBy}
use yukon_collector.Forward.Shards.{
  events_of, entering, is_shared, Shards, at_one, ShardsReach, next,
}
use yukon_collector.Forward.Shards.Trace.{accepted_of}

-- A run of the workers alone.
pub data WorkersRun (cfg : Config) (largest : ℕ) : Shards → Shards → Type 0 where
  all_rest : {f : Shards} → WorkersRun cfg largest f f
  one_works :
      {f g h : Shards} (before behind : List System) (s t : System) (st : Step cfg largest s t)
      → by_worker st ≡ true
      → f.systems ≡ before ++ s ∷ behind
      → g ≡ record f { systems = before ++ t ∷ behind; events = f.events ++ events_of st }
      → WorkersRun cfg largest g h
      → WorkersRun cfg largest f h

-- What the backend, the clock and the random numbers do to an item whose delivery begins, which can
-- depend on the state of the whole sink.
pub record Backend : Type 0 where
  pub world : Shards → QueuedItem → World
  pub clock : Shards → ℕ

-- Every delivery of the run, and every last attempt in it, gets the backend's answers.
abbrev pub Answered :
    {cfg : Config} {largest : ℕ} (backend : Backend) {f g : Shards}
    → WorkersRun cfg largest f g
    → Type 0
Answered backend all_rest = Unit
Answered backend {f = f} (one_works before behind s t st own q e run) =
    AnsweredBy (backend.world f) (backend.clock f) st × Answered backend run

module _ {cfg : Config} {largest : ℕ} where
  -- The worker shares no step, brings no item and accepts none.
  pub by_worker_lem :
      {s t : System} (st : Step cfg largest s t)
      → by_worker st ≡ true
      → (is_shared st ≡ false) × (entering st ≡ []) × (accepted_of (events_of st) ≡ [])
  unfolding accepted_of
  by_worker_lem (refuse_closed item c e) h = absurd (cc)
  by_worker_lem (reserve_bytes item sh fits c r e) h = absurd (cc)
  by_worker_lem (refuse_bytes item sh c r e) h = absurd (cc)
  by_worker_lem (send before behind item sh q r e) h = absurd (cc)
  by_worker_lem (refuse_full before behind item q r e) h = absurd (cc)
  by_worker_lem (close q e) h = absurd (cc)
  by_worker_lem (stop c e) h = absurd (cc)
  by_worker_lem (look w c e) h = (refl, refl, refl)
  by_worker_lem (look_stopped w c e) h = (refl, refl, refl)
  by_worker_lem (receive item sh w r e) h = (refl, refl, refl)
  by_worker_lem (wake_stopped w c e) h = (refl, refl, refl)
  by_worker_lem (deliver_item item fuel now w cs d o e) h = (refl, refl, refl)
  by_worker_lem (release_item item w e) h = (refl, refl, refl)
  by_worker_lem (drain_item item sh w r e) h = (refl, refl, refl)
  by_worker_lem (end_item item w d e) h = (refl, refl, refl)
  by_worker_lem (release_drained item w e) h = (refl, refl, refl)
  by_worker_lem (exit w r e) h = (refl, refl, refl)

  pub ShardsReach-run :
      {f g h : Shards}
      → ShardsReach cfg largest f g
      → WorkersRun cfg largest g h
      → ShardsReach cfg largest f h
  ShardsReach-run r all_rest = r
  ShardsReach-run {g = g} r (one_works before behind s t st own q e more) =
      let (local, none_new, _) = by_worker_lem st own in
      ShardsReach-run
        (next r (at_one before behind s t st q local (rw none_new (let u : Unit {0} = tt in u)) e))
        more
