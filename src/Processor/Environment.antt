-- ===== src/Processor/Environment.antt =====
-- internal/processor/environment.go: the processor that stamps an environment.
pub mod Stamp
use yukon_collector.Base.{
  is_empty, ◌≡◌, Bool, true, false, Option, none, some, List, [], ◌∷◌, Bytes, bytes_eq,
  if◌then◌else◌,
}
use yukon_collector.Metrics.Counters.{
  PayloadKind, deltas, manifest, static_baseline, Count, environment_mismatch,
}
use yukon_collector.Payload.{Resource, DeltaBatch, ProbeManifest, StaticBaseline}
use yukon_collector.Ingest.Sink.{Sink, Taken, counted_before}
use yukon_collector.Processor.Action.{Action, insert, upsert}

pub record EnvironmentConfig : Type 0 where
  pub value : Bytes
  pub action : Action

abbrev overwrite : Action → Bytes → Resource → Resource
overwrite upsert value res = record res { environment = value }
overwrite insert value res = res

unfoldable pub stamp_resource : EnvironmentConfig → Resource → PayloadKind → Resource × List Count
stamp_resource cfg res payload =
    if is_empty res.environment
    then (record res { environment = cfg.value }, [])
    else if bytes_eq res.environment cfg.value
    then (res, [])
    else (overwrite cfg.action cfg.value res, environment_mismatch payload ∷ [])

unfoldable pub stamp :
    EnvironmentConfig → Option Resource → PayloadKind → Option Resource × List Count
stamp cfg none payload = (none, [])
stamp cfg (some res) payload = let (res', cs) = stamp_resource cfg res payload in (some res', cs)

unfoldable pub environment : {S E : Type 0} → EnvironmentConfig → Sink S E → Sink S E
environment cfg next = record {
  accept_delta_batch = λ batch s.
      let (res, cs) = stamp cfg batch.resource deltas in
      counted_before cs (next.accept_delta_batch (record batch { resource = res }) s);
  accept_manifest = λ m s.
      let (res, cs) = stamp cfg m.resource manifest in
      counted_before cs (next.accept_manifest (record m { resource = res }) s);
  accept_static_baseline = λ baseline s.
      let (res, cs) = stamp cfg baseline.resource static_baseline in
      counted_before cs (next.accept_static_baseline (record baseline { resource = res }) s);
}
