-- ===== src/Forward/Worker/Drain.antt =====
-- The steps that a worker has left once Shutdown has begun, and the one that it can take.
use yukon_collector.Base.{
  ℕ, suc, ◌+◌, ◌*◌, ◌<◌, ◌^◌, ◌≡◌, ◌≢◌, ◌⊎◌, inl, inr, refl, true, List, [], ◌∷◌, ◌++◌, length,
  arith,
}
use yukon_collector.Forward.Config.{Config}
use yukon_collector.Forward.Shard.{QueuedItem, Shard, release, try_receive}
use yukon_collector.Forward.Sink.{size}
use yukon_collector.Forward.Deliver.{World, final_delivery_attempt}
use yukon_collector.Forward.Deliver.Total.{IsRetrying, deliver_lem}
use yukon_collector.Forward.Worker.{
  WorkerState, looking, waiting, draining, exited, delivering, delivered, ending, ended, System,
  Step, look_stopped, wake_stopped, deliver_item, release_item, drain_item, end_item,
  release_drained, exit, by_worker,
}
use yukon_collector.Ingest.Paths.{payload_label}

-- How many steps the worker takes at most before it exits, once Shutdown has begun.
abbrev pub steps_left : WorkerState → ℕ
steps_left waiting = 4
steps_left (delivering item) = 6
steps_left (delivered item) = 5
steps_left looking = 4
steps_left (ending item) = 3
steps_left (ended item) = 2
steps_left draining = 1
steps_left exited = 0

abbrev pub work_left : System → ℕ
work_left s = 3 * length s.shard.queue + steps_left s.worker

-- The delivery or the last attempt of an item, if the step is one, meets the given world, and the
-- delivery begins at the given time.
abbrev pub AnsweredBy :
    {cfg : Config} {largest : ℕ} {s t : System}
    → (QueuedItem → World)
    → ℕ
    → Step cfg largest s t
    → Type 0
AnsweredBy world clock (deliver_item item fuel now w cs d o e) = (w ≡ world item) × (now ≡ clock)
AnsweredBy world clock (end_item item w d e) = w ≡ world item
AnsweredBy world clock _ = Unit

pub live_or_exited : (w : WorkerState) → (w ≡ exited) ⊎ (w ≢ exited)
live_or_exited exited = inl refl
live_or_exited looking = inr (λ e. cc)
live_or_exited waiting = inr (λ e. cc)
live_or_exited draining = inr (λ e. cc)
live_or_exited (delivering item) = inr (λ e. cc)
live_or_exited (delivered item) = inr (λ e. cc)
live_or_exited (ending item) = inr (λ e. cc)
live_or_exited (ended item) = inr (λ e. cc)

-- The worker can always go on, whatever the world does to it.
module _ (cfg : Config) (largest : ℕ) (world : QueuedItem → World) (clock : ℕ)
    (retrying : IsRetrying cfg)
    (rands : (item : QueuedItem) (i : ℕ) → ((world item).round i).rand < 2 ^ 53) where
  abbrev Next : System → Type 0
  Next s =
      (t : System) × (st : Step cfg largest s t) × (by_worker st ≡ true) × AnsweredBy world clock st

  drain-Next :
      (s : System) (queue : List QueuedItem) → s.shard.queue ≡ queue → s.worker ≡ draining → Next s
  unfolding try_receive
  drain-Next s [] q w = (record s { worker = exited }, exit w (rw q) refl, refl, tt)
  drain-Next s (item ∷ rest) q w =
      let sh : Shard = record { queue = rest; bytes = s.shard.bytes } in
      (record s { shard = sh; worker = ending item }, drain_item item sh w (rw q) refl, refl, tt)

  pub worker-Next :
      (s : System) (worker : WorkerState)
      → s.worker ≡ worker
      → s.stopping ≡ true
      → worker ≢ exited
      → Next s
  unfolding release
  worker-Next s looking w h live = (record s { worker = draining }, look_stopped w h refl, refl, tt)
  worker-Next s waiting w h live = (record s { worker = draining }, wake_stopped w h refl, refl, tt)
  worker-Next s draining w h live = drain-Next s s.shard.queue refl w
  worker-Next s exited w h live = absurd (live refl)
  worker-Next s (delivering item) w h live =
      let fuel = suc (size cfg.retry_max_elapsed_time) in
      let (cs, d, _) =
        deliver_lem fuel (world item) cfg item clock retrying (rands item) (omega arith) in
      (
        record s {
          worker = delivered item;
          counts = s.counts ++ cs;
          ended_items = s.ended_items ++ item ∷ [];
        },
        deliver_item item fuel clock (world item) cs w d refl,
        refl,
        (refl, refl),
      )
  worker-Next s (delivered item) w h live = (
    record s { shard = release (length item.body) s.shard; worker = looking },
    release_item item w refl,
    refl,
    tt,
  )
  worker-Next s (ending item) w h live = (
    record s {
      worker = ended item;
      counts = s.counts ++ final_delivery_attempt (world item) (payload_label item.path);
      ended_items = s.ended_items ++ item ∷ [];
    },
    end_item item (world item) w refl,
    refl,
    refl,
  )
  worker-Next s (ended item) w h live = (
    record s { shard = release (length item.body) s.shard; worker = draining },
    release_drained item w refl,
    refl,
    tt,
  )
