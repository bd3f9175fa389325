-- ===== src/Payload/Reflect/Clean.antt =====
-- Dropping the unknown fields reaches every depth and touches nothing else.
use yukon_collector.Base.{◌≡◌, refl, []}
use yukon_collector.Payload.Reflect.{
  Message, Fields, Messages, Entries, message, end, scalar, singular, repeated, mapped, no_message,
  add_message, no_entry, add_entry, drop_unknown, drop_unknown_fields, drop_unknown_list,
  drop_unknown_map,
}

-- No message of the tree has an unknown field.
unfoldable mutual
  pub IsClean : Message → Type 0
  IsClean (message unknown fs) = (unknown ≡ []) × IsCleanFields fs

  pub IsCleanFields : Fields → Type 0
  IsCleanFields end = Unit
  IsCleanFields (scalar v fs) = IsCleanFields fs
  IsCleanFields (singular m fs) = IsClean m × IsCleanFields fs
  IsCleanFields (repeated ms fs) = IsCleanList ms × IsCleanFields fs
  IsCleanFields (mapped es fs) = IsCleanMap es × IsCleanFields fs

  pub IsCleanList : Messages → Type 0
  IsCleanList no_message = Unit
  IsCleanList (add_message m ms) = IsClean m × IsCleanList ms

  pub IsCleanMap : Entries → Type 0
  IsCleanMap no_entry = Unit
  IsCleanMap (add_entry k m es) = IsClean m × IsCleanMap es

-- The two trees have the same known fields, at every depth.
mutual
  pub SameKnown : Message → Message → Type 0
  SameKnown (message _ fs) (message _ gs) = SameKnownFields fs gs

  pub SameKnownFields : Fields → Fields → Type 0
  SameKnownFields end end = Unit
  SameKnownFields (scalar v fs) (scalar w gs) = (v ≡ w) × SameKnownFields fs gs
  SameKnownFields (singular m fs) (singular n gs) = SameKnown m n × SameKnownFields fs gs
  SameKnownFields (repeated ms fs) (repeated ns gs) = SameKnownList ms ns × SameKnownFields fs gs
  SameKnownFields (mapped es fs) (mapped ds gs) = SameKnownMap es ds × SameKnownFields fs gs
  SameKnownFields _ _ = ⊥

  pub SameKnownList : Messages → Messages → Type 0
  SameKnownList no_message no_message = Unit
  SameKnownList (add_message m ms) (add_message n ns) = SameKnown m n × SameKnownList ms ns
  SameKnownList _ _ = ⊥

  pub SameKnownMap : Entries → Entries → Type 0
  SameKnownMap no_entry no_entry = Unit
  SameKnownMap (add_entry j m es) (add_entry k n ds) = (j ≡ k) × SameKnown m n × SameKnownMap es ds
  SameKnownMap _ _ = ⊥

mutual
  unfolding drop_unknown drop_unknown_fields drop_unknown_list drop_unknown_map IsClean
      IsCleanFields IsCleanList IsCleanMap

  clean : (m : Message) → IsClean (drop_unknown m)
  clean (message unknown fs) = (refl, clean_fields fs)

  clean_fields : (fs : Fields) → IsCleanFields (drop_unknown_fields fs)
  clean_fields end = tt
  clean_fields (scalar v fs) = clean_fields fs
  clean_fields (singular m fs) = (clean m, clean_fields fs)
  clean_fields (repeated ms fs) = (clean_list ms, clean_fields fs)
  clean_fields (mapped es fs) = (clean_map es, clean_fields fs)

  clean_list : (ms : Messages) → IsCleanList (drop_unknown_list ms)
  clean_list no_message = tt
  clean_list (add_message m ms) = (clean m, clean_list ms)

  clean_map : (es : Entries) → IsCleanMap (drop_unknown_map es)
  clean_map no_entry = tt
  clean_map (add_entry k m es) = (clean m, clean_map es)

mutual
  unfolding drop_unknown drop_unknown_fields drop_unknown_list drop_unknown_map SameKnown
      SameKnownFields SameKnownList SameKnownMap

  same : (m : Message) → SameKnown m (drop_unknown m)
  same (message unknown fs) = same_fields fs

  same_fields : (fs : Fields) → SameKnownFields fs (drop_unknown_fields fs)
  same_fields end = tt
  same_fields (scalar v fs) = (refl, same_fields fs)
  same_fields (singular m fs) = (same m, same_fields fs)
  same_fields (repeated ms fs) = (same_list ms, same_fields fs)
  same_fields (mapped es fs) = (same_map es, same_fields fs)

  same_list : (ms : Messages) → SameKnownList ms (drop_unknown_list ms)
  same_list no_message = tt
  same_list (add_message m ms) = (same m, same_list ms)

  same_map : (es : Entries) → SameKnownMap es (drop_unknown_map es)
  same_map no_entry = tt
  same_map (add_entry k m es) = (refl, same m, same_map es)

-- No unknown field is left at any depth, and every known field is as it was.
pub drop_unknown_lem : (m : Message) → IsClean (drop_unknown m) × SameKnown m (drop_unknown m)
drop_unknown_lem m = (clean m, same m)
