-- ===== src/Processor/Environment/Stamp.antt =====
-- What the environment processor leaves on a payload.
use yukon_collector.Base.{
  ◌≡◌, sym, ap, Bool, true, not, ◌&&◌, [], ◌∷◌, Bytes, is_empty, bytes_eq, bytes_eq_sound,
  if◌then◌else◌, arith,
}
use yukon_collector.Metrics.Counters.{PayloadKind, environment_mismatch}
use yukon_collector.Payload.{Resource}
use yukon_collector.Processor.Action.{Action, insert, upsert}
use yukon_collector.Processor.Environment.{EnvironmentConfig, stamp_resource}

-- The environment that a payload leaves with.
abbrev pub kept_or_set : Action → Bytes → Bytes → Bytes
kept_or_set upsert value agent = value
kept_or_set insert value agent = if is_empty agent then value else agent

abbrev pub mismatches : Bytes → Bytes → Bool
mismatches value agent = not (is_empty agent) && not (bytes_eq agent value)

-- The two ways to write an environment agree on a resource that holds the value already.
same_environment :
    (res : Resource) (value : Bytes)
    → bytes_eq res.environment value ≡ true
    → record res { environment = value } ≡ res
same_environment res value e = ap (λ v. record res { environment = v }) (sym (bytes_eq_sound _ _ e))

-- A resource leaves with the configured environment if the agent set none or the action is upsert,
-- and with the agent's otherwise; one mismatch is counted exactly when the agent set another
-- environment; and nothing else of the resource changes.
pub environment_stamp_lem :
    (cfg : EnvironmentConfig) (res : Resource) (p : PayloadKind)
    → stamp_resource cfg res p ≡ (
      record res { environment = kept_or_set cfg.action cfg.value res.environment },
      (if mismatches cfg.value res.environment then environment_mismatch p ∷ [] else []),
    )
unfolding stamp_resource
environment_stamp_lem cfg res p = ground (arith, same_environment res cfg.value)
