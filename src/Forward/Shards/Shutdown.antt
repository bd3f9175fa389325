-- ===== src/Forward/Shards/Shutdown.antt =====
-- Shutdown of the sink: every shard drains, and the call returns.
use yukon_collector.Base.{
  ℕ, zero, suc, ◌≢◌, ◌⊎◌, inl, inr, All-split, ◌<◌, ◌^◌, ◌≡◌, refl, sym, ap, ◌∙◌, true, List, [],
  ◌∷◌, ◌++◌, length, append-nil, All, All-append, arith,
}
use yukon_collector.Forward.Config.{Config}
use yukon_collector.Forward.Deliver.Total.{IsRetrying}
use yukon_collector.Forward.Worker.{System, exited}
use yukon_collector.Forward.Worker.Invariant.{outcomes, Reach-Inv, Reach_exited}
use yukon_collector.Forward.Shard.{QueuedItem}
use yukon_collector.Forward.Worker.Drain.{live_or_exited, worker-Next}
use yukon_collector.Forward.Shards.Workers.{
  WorkersRun, all_rest, one_works, Backend, Answered, by_worker_lem, ShardsReach-run,
}
use yukon_collector.Forward.Shards.Bound.{work_of, work_of-append, worker-Shrinks}
use yukon_collector.Forward.Shards.{events_of, Shards, idle_shards, ShardsStep, return, ShardsReach}
use yukon_collector.Forward.Shards.Trace.{accepted_of, ended_of, accepted_of-append}
use yukon_collector.Forward.Shards.Routing.{pending}
use yukon_collector.Forward.Shards.Owners.{only, all_pending, only_nil}
use yukon_collector.Forward.Shards.Fifo.InOrder.{ShardsReach-InOrder}
use yukon_collector.Forward.Instance.{Instance}
use yukon_collector.Forward.Shards.Reached.{IsReached, ShardsReach-IsReached}

-- Every worker has exited, or some worker has not.
some_live :
    (ss : List System)
    → All (λ (s : System). s.worker ≡ exited) ss
      ⊎ ((before : List System) × (s : System) × (behind : List System) × (ss
            ≡ before ++ s ∷ behind)
          × (s.worker ≢ exited))
some_live [] = inl tt
some_live (s ∷ ss) = elim (live_or_exited s.worker) [
  | inr live ↦ inr ([], s, ss, refl, live)
  | inl e ↦ elim (some_live ss) [
    | inl done ↦ inl (e, done)
    | inr (before, t, behind, q, live) ↦ inr (s ∷ before, t, behind, ap (λ x. s ∷ x) q, live)
  ]
]

module _ (cfg : Config) (largest : ℕ) where
  -- A shard whose worker has exited: it holds nothing, and each of its items has one outcome.
  abbrev pub IsFinished : System → Type 0
  IsFinished s =
      (s.worker ≡ exited)
      × (s.accepted_items ≡ s.ended_items)
      × (outcomes s.counts ≡ length s.accepted_items)
      × (s.shard.bytes ≡ 0)
      × (pending s ≡ [])

  exited-pending : (s : System) → IsReached cfg largest s → s.worker ≡ exited → pending s ≡ []
  exited-pending s r e = let v = Reach-Inv r in ground arith

  all_pending-finished : (ss : List System) → All IsFinished ss → all_pending ss ≡ []
  unfolding all_pending
  all_pending-finished [] h = refl
  all_pending-finished (s ∷ ss) ((_, _, _, _, p), h) = rw (p, all_pending-finished ss h)

  ended_all :
      (n : ℕ) (o : Instance) (g : Shards)
      → ShardsReach cfg largest (idle_shards n) g
      → All IsFinished g.systems
      → only o (ended_of g.events) ≡ only o (accepted_of g.events)
  ended_all n o g r h = sym (
      ShardsReach-InOrder n o r
      ∙ ap (λ x. only o (ended_of g.events) ++ x)
          (ap (only o) (all_pending-finished g.systems h) ∙ only_nil o)
      ∙ append-nil (only o (ended_of g.events)))

  finished :
      (ss : List System)
      → All (IsReached cfg largest) ss
      → All (λ (s : System). s.worker ≡ exited) ss
      → All IsFinished ss
  finished [] r h = tt
  finished (s ∷ ss) (r, rs) (e, h) =
      let (all_ended, one_each, empty, _) = Reach_exited r e in
      ((e, all_ended, one_each, empty, exited-pending s r e), finished ss rs h)

  module _ (backend : Backend) (retrying : IsRetrying cfg)
      (rands : (f : Shards) (item : QueuedItem) (i : ℕ)
        → ((backend.world f item).round i).rand < 2 ^ 53) where
    abbrev Ending : Shards → Type 0
    Ending f =
        (g : Shards) × (run : WorkersRun cfg largest f g) × Answered backend run
        × All (λ (s : System). s.worker ≡ exited) g.systems
        × (accepted_of g.events ≡ accepted_of f.events)

    Ending-within :
        (n : ℕ) (f : Shards)
        → All (λ (s : System). s.stopping ≡ true) f.systems
        → work_of f.systems < n
        → Ending f
    unfolding work_of
    Ending-within zero f h lt = elim lt [ ]
    Ending-within (suc n) f h lt = elim (some_live f.systems) [
      | inl done ↦ (f, all_rest, tt, done, refl)
      | inr (before, s, behind, q, live) ↦
          let Stopped : System → Type 0 = λ x. x.stopping ≡ true in
          let (front, (own_stop, rest)) = All-split Stopped before (s ∷ behind) (rw q at h) in
          let (t, st, own, answered) =
            worker-Next cfg largest (backend.world f) (backend.clock f) retrying (rands f) s
              s.worker refl own_stop live in
          let (still, less) = worker-Shrinks st own own_stop in
          let f' : Shards = record f {
            systems = before ++ t ∷ behind;
            events = f.events ++ events_of st;
          } in
          let (g, run, all_answered, done, same) =
            Ending-within n f' (All-append Stopped before (t ∷ behind) front (still, rest)) (
              omega (
                arith,
                lt,
                less,
                ap work_of q,
                work_of-append before (s ∷ behind),
                work_of-append before (t ∷ behind),
              )) in
          let (_, _, nothing) = by_worker_lem st own in
          let kept : accepted_of f'.events ≡ accepted_of f.events =
            accepted_of-append f.events (events_of st)
            ∙ ap (λ x. accepted_of f.events ++ x) nothing
            ∙ append-nil (accepted_of f.events) in
          (
            g,
            one_works before behind s t st own q refl run,
            (answered, all_answered),
            done,
            same ∙ kept,
          )
    ]

    -- With retry intervals from two nanoseconds to thirteen days, over any number of shards: from any
    -- state that the sink reaches and in which Shutdown has begun, and for every backend, clock and
    -- random numbers below one, the workers alone can go on, with that backend's answers to every
    -- delivery and every last attempt, until Shutdown returns. Nothing more is accepted, and then
    -- every worker has exited, every shard is empty with one counted outcome for each item that it
    -- accepted, and the items of an instance that have ended are exactly those that were accepted, in
    -- their order.
    pub Shutdown_returns :
        (n : ℕ) (f : Shards)
        → ShardsReach cfg largest (idle_shards n) f
        → All (λ (s : System). s.stopping ≡ true) f.systems
        → (g : Shards) × (run : WorkersRun cfg largest f g) × Answered backend run
          × ShardsStep cfg largest g (record g { returned = true })
          × All IsFinished g.systems
          × (accepted_of g.events ≡ accepted_of f.events)
          × ((o : Instance) → only o (ended_of g.events) ≡ only o (accepted_of f.events))
    Shutdown_returns n f r h =
        let (g, run, answered, exits, same) =
          Ending-within (suc (work_of f.systems)) f h (omega arith) in
        let reach = ShardsReach-run r run in
        let ends : All IsFinished g.systems =
          finished g.systems (ShardsReach-IsReached cfg largest n reach) exits in
        (
          g,
          run,
          answered,
          return exits refl,
          ends,
          same,
          λ o. ended_all n o g reach ends ∙ ap (only o) same,
        )
