-- ===== src/Processor/Namespace/Stamp.antt =====
-- What the namespace processor leaves on a payload.
use yukon_collector.Base.{
  ◌≡◌, Bool, not, ◌&&◌, [], ◌∷◌, Bytes, is_empty, bytes_eq, if◌then◌else◌, arith,
}
use yukon_collector.Metrics.Counters.{PayloadKind, namespace_mismatch}
use yukon_collector.Text.Space.{trim_space}
use yukon_collector.Payload.{Resource}
use yukon_collector.Processor.Action.{Action, insert, upsert}
use yukon_collector.Processor.Namespace.{NamespaceConfig, stamp_resource}

-- The agent set a namespace, and not the collector's, up to the spaces around both.
abbrev pub mismatches : Bytes → Bytes → Bool
mismatches value agent =
    not (is_empty (trim_space agent)) && not (bytes_eq (trim_space agent) (trim_space value))

-- The namespace that a payload leaves with. One that matches is left as the agent wrote it.
abbrev pub kept_or_set : Action → Bytes → Bytes → Bytes
kept_or_set upsert value agent =
    if is_empty (trim_space agent)
    then trim_space value
    else if mismatches value agent
    then trim_space value
    else agent
kept_or_set insert value agent = if is_empty (trim_space agent) then trim_space value else agent

-- A resource whose namespace is blank leaves with the configured one, trimmed; another namespace is
-- overwritten only by upsert and only if it differs from the configured one, spaces around both
-- aside; a mismatch is counted exactly in that case, under either action; and nothing else of the
-- resource changes.
pub namespace_stamp_lem :
    (cfg : NamespaceConfig) (res : Resource) (p : PayloadKind)
    → stamp_resource cfg res p ≡ (
      record res { service_namespace = kept_or_set cfg.action cfg.value res.service_namespace },
      (if mismatches cfg.value res.service_namespace then namespace_mismatch p ∷ [] else []),
    )
unfolding stamp_resource
namespace_stamp_lem cfg res p = ground arith
