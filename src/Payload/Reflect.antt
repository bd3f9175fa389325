-- ===== src/Payload/Reflect.antt =====
-- A message as `protoreflect` shows it: its unknown fields and the known fields that are set.
-- internal/processor/redaction.go walks it in `dropUnknown`.
pub mod Clean
use yukon_collector.Base.{Bytes, [], ◌∷◌}

mutual
  pub data Message : Type 0 where
    message : (unknown : Bytes) → Fields → Message

  -- A field holds scalars, one message, a list of messages, or a map to messages.
  pub data Fields : Type 0 where
    end : Fields
    scalar : Bytes → Fields → Fields
    singular : Message → Fields → Fields
    repeated : Messages → Fields → Fields
    mapped : Entries → Fields → Fields

  pub data Messages : Type 0 where
    no_message : Messages
    add_message : Message → Messages → Messages

  pub data Entries : Type 0 where
    no_entry : Entries
    add_entry : (key : Bytes) → Message → Entries → Entries

unfoldable mutual
  pub drop_unknown : Message → Message
  drop_unknown (message unknown fields) = message [] (drop_unknown_fields fields)

  pub drop_unknown_fields : Fields → Fields
  drop_unknown_fields end = end
  drop_unknown_fields (scalar v fs) = scalar v (drop_unknown_fields fs)
  drop_unknown_fields (singular m fs) = singular (drop_unknown m) (drop_unknown_fields fs)
  drop_unknown_fields (repeated ms fs) = repeated (drop_unknown_list ms) (drop_unknown_fields fs)
  drop_unknown_fields (mapped es fs) = mapped (drop_unknown_map es) (drop_unknown_fields fs)

  pub drop_unknown_list : Messages → Messages
  drop_unknown_list no_message = no_message
  drop_unknown_list (add_message m ms) = add_message (drop_unknown m) (drop_unknown_list ms)

  pub drop_unknown_map : Entries → Entries
  drop_unknown_map no_entry = no_entry
  drop_unknown_map (add_entry k m es) = add_entry k (drop_unknown m) (drop_unknown_map es)
