-- ===== src/Forward/Shard/Admission.antt =====
-- What a shard admits.
use yukon_collector.Base.{
  ℕ, ◌+◌, ◌≡◌, Bool, true, false, ◌&&◌, ◌||◌, [], ◌∷◌, ◌++◌, length, ltb, leb, ◌==◌, if◌then◌else◌,
  arith,
}
use yukon_collector.Forward.Shard.{QueuedItem, Shard, reserve, release, try_send, enqueue_shard}

-- Room by bytes, or an idle shard; and room by count.
abbrev pub admits : ℕ → ℕ → ℕ → Shard → Bool
admits queue_size queue_bytes n sh =
    (sh.bytes == 0 || leb (sh.bytes + n) queue_bytes) && ltb (length sh.queue) queue_size

-- `enqueue_shard` puts the item last in the queue and counts its bytes if the shard admits it, and
-- leaves the shard as it was if it does not.
pub enqueue_shard_lem :
    (queue_size queue_bytes : ℕ) (item : QueuedItem) (sh : Shard)
    → enqueue_shard queue_size queue_bytes item sh ≡ (
        if admits queue_size queue_bytes (length item.body) sh
        then (record { queue = sh.queue ++ item ∷ []; bytes = sh.bytes + length item.body }, true)
        else (sh, false))
unfolding enqueue_shard reserve release try_send
enqueue_shard_lem queue_size queue_bytes item sh = ground arith
