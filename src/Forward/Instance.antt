-- ===== src/Forward/Instance.antt =====
-- internal/forward/forward.go: the instance that a payload came from, its key, and its shard.
pub mod Keys
use Prim.Native.Nat.{bit_xor}
use yukon_collector.Base.{
  ℕ, ◌+◌, ◌*◌, ◌%◌, ◌^◌, ◌≡◌, refl, Option, none, some, List, [], ◌∷◌, ◌++◌, Bytes, codes, length,
  ◌==◌, if◌then◌else◌,
}
use yukon_collector.Text.Decimal.{itoa}
use yukon_collector.Text.Space.{trim_space}
use yukon_collector.Payload.{Resource}

pub record Instance : Type 0 where
  pub namespace : Bytes
  pub service : Bytes
  pub id : Bytes

pub instance_of : Option Resource → Instance
instance_of none = record { namespace = trim_space []; service = trim_space []; id = [] }
instance_of (some res) = record {
  namespace = trim_space res.service_namespace;
  service = trim_space res.service_name;
  id = res.service_instance_id;
}

-- One round of the loop over the parts.
unfoldable pub write_part : Bytes → Bytes
write_part part = itoa (length part) ++ b':' ∷ part

unfoldable pub shard_key : Instance → Bytes
unfolding write_part
shard_key i = write_part i.namespace ++ (write_part i.service ++ write_part i.id)

-- `fnv.New32a`: each byte is xored into the hash, which is then multiplied modulo 2 ^ 32.
unfoldable pub fnv32a : ℕ → Bytes → ℕ
fnv32a h [] = h
fnv32a h (b ∷ s) = fnv32a (bit_xor h b * 16777619 % 2 ^ 32) s

-- `none` is the panic of a division by zero; `uint32(numShards)` wraps around.
unfoldable pub shard_index : Bytes → ℕ → Option ℕ
unfolding fnv32a
shard_index key num_shards =
    let n = num_shards % 2 ^ 32 in if n == 0 then none else some (fnv32a 2166136261 key % n)
