-- ===== src/Forward/Shards/Fifo/InOrder.antt =====
-- The order of the items of one instance.
use yukon_collector.Base.{
  ℕ, ◌≡◌, inl, inr, refl, List, [], ◌∷◌, ◌++◌, append_assoc, append-nil, Bool-cases,
}
use yukon_collector.Forward.Config.{Config}
use yukon_collector.Forward.Instance.{Instance}
use yukon_collector.Forward.Shard.{QueuedItem}
use yukon_collector.Forward.Shards.{ShardEvent, Shards, idle_shards, ShardsReach}
use yukon_collector.Forward.Shards.Owners.{
  is_owned, only, all_pending, only_cons, only_nil, only-append,
}
use yukon_collector.Forward.Shards.Trace.{
  accepted_of, ended_of, accepted_of-accepts, accepted_of-ends, ended_of-accepts, ended_of-ends,
}
use yukon_collector.Forward.Shards.Fifo.{
  Queues, Move, enters, leaves_first, Serves, at_start, more, ShardsReach-Serves,
}

ruleset item_laws = (
  accepted_of-accepts, accepted_of-ends, ended_of-accepts, ended_of-ends, only-append, only_cons,
  only_nil, append-nil, append_assoc,
)

abbrev InOrder : List ShardEvent → List QueuedItem → Instance → Type 0
InOrder es q o = only o (accepted_of es) ≡ only o (ended_of es) ++ q

Move-InOrder :
    {p q : Queues} {e : ShardEvent} (es : List ShardEvent) (o : Instance)
    → Move p q e
    → InOrder es (p o) o
    → InOrder (es ++ e ∷ []) (q o) o
Move-InOrder es o (enters item h) k = elim (Bool-cases (is_owned o item)) [
  | inl e ↦ simp (item_laws, h o, e, k)
  | inr e ↦ simp (item_laws, h o, e, k)
]
Move-InOrder es o (leaves_first item h) k = elim (Bool-cases (is_owned o item)) [
  | inl e ↦ simp (item_laws, e, k, h o)
  | inr e ↦ simp (item_laws, e, k, h o)
]

Serves-InOrder :
    {es : List ShardEvent} {q : Queues} (o : Instance) → Serves es q → InOrder es (q o) o
unfolding accepted_of ended_of only
Serves-InOrder o (at_start h) = rw (h o) refl
Serves-InOrder o (more {es = es} s m e) = rw e (Move-InOrder es o m (Serves-InOrder o s))

-- In every state that the sink reaches, the items of an instance that were accepted are, in the
-- order of their acceptance, those that ended and then those that the shards hold.
pub ShardsReach-InOrder :
    {cfg : Config} {largest : ℕ} (n : ℕ) {f : Shards} (o : Instance)
    → ShardsReach cfg largest (idle_shards n) f
    → only o (accepted_of f.events) ≡ only o (ended_of f.events) ++ only o (all_pending f.systems)
ShardsReach-InOrder n o r = Serves-InOrder o (ShardsReach-Serves n r)
