-- ===== src/Forward/Instance/Keys.antt =====
-- The shard key of an instance decodes one way only, and its shard exists.
use yukon_collector.Base.{
  ℕ, zero, suc, ◌+◌, ◌-◌, ◌*◌, ◌/◌, ◌%◌, ◌^◌, ◌<◌, ◌≡◌, refl, ap, sym, ◌∙◌, Option, none, some, [],
  ◌∷◌, ◌++◌, append_assoc, append-nil, arith, Bytes, length, take, drop, ◌==◌, if◌then◌else◌,
}
use yukon_collector.Text.Decimal.{digits, itoa, is_digit}
use yukon_collector.Forward.Instance.{Instance, write_part, shard_key, fnv32a, shard_index}

-- A reader of keys, written from the key's description alone: digits, a colon, so many bytes.
pub read_len : Bytes → ℕ → Option (ℕ × Bytes)
read_len [] n = none
read_len (c ∷ s) n =
    let more = read_len s (n * 10 + (c - b'0')) in
    if c == b':' then some (n, s) else if is_digit c then more else none

abbrev cut : Option (ℕ × Bytes) → Option (Bytes × Bytes)
cut none = none
cut (some (n, s)) = some (take n s, drop n s)

pub read_part : Bytes → Option (Bytes × Bytes)
read_part s = cut (read_len s 0)

read_len-digits :
    (f n : ℕ) (out rest : Bytes)
    → n < f
    → read_len (digits f n out ++ rest) 0 ≡ read_len (out ++ rest) n
unfolding read_len digits
read_len-digits zero n out rest h = elim h [ ]
read_len-digits (suc f) n out rest h =
    ground (arith, read_len-digits f (n / 10) ((b'0' + n % 10) ∷ out) rest)

take-append : (s rest : Bytes) → take (length s) (s ++ rest) ≡ s
take-append [] rest = refl
take-append (c ∷ s) rest = rw (take-append s rest)

drop-append : (s rest : Bytes) → drop (length s) (s ++ rest) ≡ rest
drop-append [] rest = refl
drop-append (c ∷ s) rest = drop-append s rest

read_len-itoa : (n : ℕ) (rest : Bytes) → read_len (itoa n ++ b':' ∷ rest) 0 ≡ some (n, rest)
unfolding itoa read_len
read_len-itoa n rest = read_len-digits (suc n) n [] (b':' ∷ rest) (omega arith)

read_part-write_part : (part rest : Bytes) → read_part (write_part part ++ rest) ≡ some (part, rest)
unfolding read_part write_part
read_part-write_part part rest = rw (append_assoc, read_len-itoa, take-append, drop-append)

-- Three parts in a row, and nothing behind them.
abbrev finish : Bytes → Bytes → Option (Bytes × Bytes) → Option Instance
finish namespace service (some (id, [])) =
    some (record { namespace = namespace; service = service; id = id })
finish namespace service _ = none

abbrev third_part : Bytes → Option (Bytes × Bytes) → Option Instance
third_part namespace none = none
third_part namespace (some (service, s)) = finish namespace service (read_part s)

abbrev second_part : Option (Bytes × Bytes) → Option Instance
second_part none = none
second_part (some (namespace, s)) = third_part namespace (read_part s)

pub read_key : Bytes → Option Instance
read_key s = second_part (read_part s)

-- Reading the shard key of any instance gives the instance back.
pub read_key-shard_key : (i : Instance) → read_key (shard_key i) ≡ some i
unfolding read_key shard_key
read_key-shard_key i = rw (
  read_part-write_part i.namespace,
  read_part-write_part i.service,
  ← append-nil (write_part i.id),
  read_part-write_part i.id,
)

some-inj : {i j : Instance} → some i ≡ some j → i ≡ j
some-inj e = cc

-- Two instances with one shard key are the same instance.
pub shard_key-injective : (i j : Instance) → shard_key i ≡ shard_key j → i ≡ j
shard_key-injective i j e =
    some-inj (sym (read_key-shard_key i) ∙ ap read_key e ∙ read_key-shard_key j)

-- For a number of shards below 2 ^ 32 every key has a shard, and its index is in range.
pub shard_index_total :
    (key : Bytes) (n : ℕ) → 0 < n → n < 2 ^ 32 → (i : ℕ) × (shard_index key n ≡ some i) × (i < n)
unfolding shard_index
shard_index_total key n h k = (fnv32a 2166136261 key % n, ground arith, omega arith)
