-- ===== src/Ingest/Sink.antt =====
-- ingest/handler.go: what the handler and the processors ask of a sink. An operation takes the sink's
-- state and gives the new one, the counts that it made on the way, and an error if the payload was
-- not taken; `none` is a panic.
use yukon_collector.Base.{Option, none, some, List, ◌++◌}
use yukon_collector.Metrics.Counters.{Count}
use yukon_collector.Payload.{DeltaBatch, ProbeManifest, StaticBaseline}

pub record Taken (S E : Type 0) : Type 0 where
  pub state : S
  pub counts : List Count
  pub error : Option E

pub record Sink (S E : Type 0) : Type 0 where
  pub accept_delta_batch : DeltaBatch → S → Option (Taken S E)
  pub accept_manifest : ProbeManifest → S → Option (Taken S E)
  pub accept_static_baseline : StaticBaseline → S → Option (Taken S E)

-- The counts of a processor come before those of the sink that it wraps.
abbrev pub counted_before : {S E : Type 0} → List Count → Option (Taken S E) → Option (Taken S E)
counted_before cs none = none
counted_before cs (some t) = some (record t { counts = cs ++ t.counts })
