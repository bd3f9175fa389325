-- ===== src/Forward/Shards/Fifo.antt =====
-- The sink as one queue for each instance, whatever the number of shards.
pub mod InOrder
use yukon_collector.Base.{
  ℕ, zero, suc, ◌+◌, ◌<◌, ◌≤◌, ◌≡◌, ◌≢◌, ◌⊎◌, inl, inr, refl, sym, ap, ◌∙◌, Bool, true, false, ◌&&◌,
  some, List, [], ◌∷◌, ◌++◌, map, length, append_assoc, append-nil, All, All-split, Bool-cases,
  bytes_eq, bytes_eq_sound, if◌then◌else◌, arith,
}
use yukon_collector.Forward.Config.{Config}
use yukon_collector.Forward.Instance.{Instance, shard_key, shard_index}
use yukon_collector.Forward.Shard.{QueuedItem}
use yukon_collector.Forward.Worker.{System, Step}
use yukon_collector.Forward.Shards.{
  ShardEvent, accepts, ends, entering, events_of, Shards, idle_systems, idle_shards, GoesTo,
  close_one, stop_one, ShardsStep, at_one, close_all, stop_all, return, ShardsReach, here, next,
}
use yukon_collector.Forward.Shards.Routing.{
  pending, Effect, quiet, joins, leaves, arrives, departs, Step-Effect, Step-Holds, Holds,
  RoutedFrom, At, RoutedFrom-split, IsRouted, ShardsReach-IsRouted,
}
use yukon_collector.Forward.Shards.Owners.{
  is_owned, only, all_pending, around, only_cons, only_nil, only-append, only-arrives, only-departs,
  zero_add, all_pending-middle, all_pending-map,
}

-- A queue for each instance.
abbrev pub Queues : Type 0
Queues = Instance → List QueuedItem

-- What has been accepted of each instance and has no outcome yet.
abbrev pub waiting_of : Shards → Queues
waiting_of f o = only o (all_pending f.systems)

-- An accepted item goes behind the queue of its instance, and an item that ends is the first of it.
pub data Move (p q : Queues) : ShardEvent → Type 0 where
  enters :
      (item : QueuedItem)
      → ((o : Instance) → q o ≡ (if is_owned o item then p o ++ item ∷ [] else p o))
      → Move p q (accepts item)
  leaves_first :
      (item : QueuedItem)
      → ((o : Instance) → p o ≡ (if is_owned o item then item ∷ q o else q o))
      → Move p q (ends item)

-- The queues after these events, from empty ones.
pub data Serves : List ShardEvent → Queues → Type 0 where
  at_start : {q : Queues} → ((o : Instance) → q o ≡ []) → Serves [] q
  more :
      {es fs : List ShardEvent} {e : ShardEvent} {p q : Queues}
      → Serves es p
      → Move p q e
      → fs ≡ es ++ e ∷ []
      → Serves fs q

-- What a step does to the queues of the instances.
abbrev Moves : Shards → Shards → Type 0
Moves f g =
    ((g.events ≡ f.events) × (all_pending g.systems ≡ all_pending f.systems))
    ⊎ ((e : ShardEvent) × Move (waiting_of f) (waiting_of g) e × (g.events ≡ f.events ++ e ∷ []))

-- The shard between `before` and `behind` goes from `s` to `t`.
module _ (n : ℕ) (before behind : List System) (s t : System) (f g : Shards)
    (was : all_pending f.systems ≡ around n before behind (pending s))
    (becomes : all_pending g.systems ≡ around n before behind (pending t))
    (at_s : At n 0 before s behind) (at_t : At n 0 before t behind) where
  unmoved :
      (es : List ShardEvent)
      → g.events ≡ f.events ++ es
      → es ≡ []
      → pending t ≡ pending s
      → Moves f g
  unmoved es grown none_new p = inl (
    grown ∙ ap (λ x. f.events ++ x) none_new ∙ append-nil f.events,
    becomes ∙ ap (around n before behind) p ∙ sym was,
  )

  Effect-Moves :
      (xs : List QueuedItem) (es : List ShardEvent)
      → g.events ≡ f.events ++ es
      → Effect s t xs es
      → Moves f g
  Effect-Moves xs es grown (quiet e p q) = unmoved es grown e p
  Effect-Moves xs es grown (joins item e x p q) = unmoved es grown e p
  Effect-Moves xs es grown (leaves item front back e p q r) = unmoved es grown e p
  Effect-Moves xs es grown (arrives item front back e p q r) =
      let (place, _) =
        (All-split (GoesTo n (0 + length before)) (pending s) (item ∷ []) (rw p at at_t.1.1)).1 in
      inr (
        accepts item,
        enters item (λ o.
            rw (was, becomes, p)
              (only-arrives n before behind (pending s) item o at_s.2 (rw zero_add at place))),
        rw e at grown,
      )
  Effect-Moves xs es grown (departs item e p q) = inr (
    ends item,
    leaves_first item (λ o.
        rw (was, becomes, p)
          (only-departs n before behind (pending t) item o at_s.0
            (rw zero_add at (rw p at at_s.1.1).0))),
    rw e at grown,
  )

ShardsStep-Moves :
    {cfg : Config} {largest n : ℕ} {f g : Shards}
    → ShardsStep cfg largest f g
    → IsRouted n f.systems
    → IsRouted n g.systems
    → Moves f g
ShardsStep-Moves {n = n} {f = f} {g = g} (at_one before behind s t st q local new e) v w =
    let r = RoutedFrom-split n 0 before s behind (rw q at v.places) in
    let systems : g.systems ≡ before ++ t ∷ behind = ap (λ x. x.systems) e in
    let r' = RoutedFrom-split n 0 before t behind (rw systems at w.places) in
    Effect-Moves n before behind s t f g (ap all_pending q ∙ all_pending-middle before s behind)
      (ap all_pending systems ∙ all_pending-middle before t behind) r r' (entering st)
      (events_of st) (ap (λ x. x.events) e) (Step-Effect st)
ShardsStep-Moves {f = f} (close_all q e) v w =
    inl (rw e refl, rw e (all_pending-map close_one f.systems (λ s. refl)))
ShardsStep-Moves {f = f} (stop_all q e) v w =
    inl (rw e refl, rw e (all_pending-map stop_one f.systems (λ s. refl)))
ShardsStep-Moves (return q e) v w = inl (rw e refl, rw e refl)

idle_pending : (n : ℕ) → all_pending (idle_systems n) ≡ []
unfolding idle_systems all_pending
idle_pending zero = refl
idle_pending (suc n) = idle_pending n

Serves-same :
    {es fs : List ShardEvent} {xs ys : List QueuedItem}
    → fs ≡ es
    → ys ≡ xs
    → Serves es (λ o. only o xs)
    → Serves fs (λ o. only o ys)
Serves-same p q h = rw (p, q) h

-- However the shards, the callers and Shutdown interleave, and whatever the number of shards, the
-- sink does what one queue for each instance does: each accepted item goes behind those of its
-- instance, each item that ends is the first of its instance, and what the shards hold of an
-- instance is its queue.
pub ShardsReach-Serves :
    {cfg : Config} {largest : ℕ} (n : ℕ) {f : Shards}
    → ShardsReach cfg largest (idle_shards n) f
    → Serves f.events (waiting_of f)
unfolding idle_shards
ShardsReach-Serves n here = at_start (λ o. rw (idle_pending n) (only_nil o))
ShardsReach-Serves n (next {g = g} {h = h} r st) =
    let v = ShardsReach-IsRouted r in
    elim (ShardsStep-Moves st v (ShardsReach-IsRouted (next r st))) [
      | inl (same, kept) ↦ Serves-same same kept (ShardsReach-Serves n r)
      | inr (e, m, grown) ↦ more (ShardsReach-Serves n r) m grown
    ]
