-- ===== src/Forward/Sink/Enqueue.antt =====
-- What an Accept call does on every branch.
use yukon_collector.Base.{
  ℕ, ◌+◌, ◌<◌, ◌^◌, ◌≡◌, Option, none, some, [], ◌∷◌, ◌++◌, length, get_elem?, set, set_same,
  get_elem?_total, if◌then◌else◌, arith,
}
use yukon_collector.Metrics.Counters.{RefuseReason}
use yukon_collector.Forward.Instance.{shard_key, shard_index}
use yukon_collector.Forward.Instance.Keys.{shard_index_total}
use yukon_collector.Forward.Shard.{QueuedItem, Shard}
use yukon_collector.Forward.Shard.Admission.{admits, enqueue_shard_lem}
use yukon_collector.Forward.Sink.{
  ForwardingSink, SinkError, err_queue_full, err_shutting_down, size, refused, enqueue,
}

-- The shard after it took the item.
abbrev pub holding : Shard → QueuedItem → Shard
holding sh item = record { queue = sh.queue ++ item ∷ []; bytes = sh.bytes + length item.body }

-- What `enqueue` promises when the item's shard is `sh`, at index `i`.
abbrev pub enqueue_answer :
    ForwardingSink → QueuedItem → ℕ → Shard → ForwardingSink × Option SinkError
enqueue_answer s item i sh =
    if s.closed
    then (refused s item RefuseReason.shutting_down, some (err_shutting_down item.owner))
    else if admits (size s.cfg.queue_size) (size s.cfg.queue_bytes) (length item.body) sh
    then (record s { shards = set s.shards i (holding sh item) }, none)
    else (refused s item RefuseReason.queue_full, some (err_queue_full item.owner))

-- `enqueue` never panics on a sink that has between 1 and 2 ^ 32 - 1 shards: the item's key has a
-- shard, and the call refuses the item when the sink is closed, refuses it when that shard has no
-- room, and otherwise puts it last in that shard's queue, counts its bytes, and changes no other
-- shard. A refused item changes no shard and is counted under its reason.
pub enqueue_lem :
    (s : ForwardingSink) (item : QueuedItem)
    → 0 < length s.shards
    → length s.shards < 2 ^ 32
    → (i : ℕ) × (sh : Shard) × (shard_index (shard_key item.owner) (length s.shards) ≡ some i)
      × (get_elem? s.shards i ≡ some sh)
      × (enqueue s item ≡ some (enqueue_answer s item i sh))
unfolding enqueue
enqueue_lem s item h k =
    let (i, e, lt) = shard_index_total (shard_key item.owner) (length s.shards) h k in
    let (sh, g) = get_elem?_total s.shards i lt in
    (
      i,
      sh,
      e,
      g,
      ground (
        arith,
        enqueue_shard_lem (size s.cfg.queue_size) (size s.cfg.queue_bytes) item sh,
        set_same s.shards i sh,
      ),
    )
