-- ===== src/Command/Sinks.antt =====
-- cmd/otherlode-collector/routes.go and ingest/logsink.go: the sink at the end of the chain, either the
-- backend's relay or the one that only logs. `proto.Marshal` is a parameter. The relay keeps its own
-- counts in its state, and the log sink the lines that it wrote.
use yukon_collector.Base.{Option, none, some, List, [], ◌∷◌, ◌++◌, Bytes, is_empty, if◌then◌else◌}
use yukon_collector.Payload.{DeltaBatch, ProbeManifest, StaticBaseline}
use yukon_collector.Ingest.LogSink.{LogLine, batch_line, manifest_line, baseline_line}
use yukon_collector.Ingest.Sink.{Sink, Taken}
use yukon_collector.Forward.Config.{Config, Url}
use yukon_collector.Forward.Sink.{
  ForwardingSink, SinkError, NewSink, started, refused_url, new_forwarding_sink, accept_delta_batch,
  accept_manifest, accept_static_baseline,
}
use yukon_collector.Command.Settings.{bad_backend, Result, ok, err}

pub data BaseSink : Type 0 where
  forwarding : ForwardingSink → BaseSink
  log_only : List LogLine → BaseSink

pub record Encoders : Type 0 where
  pub delta_batch : DeltaBatch → Option Bytes
  pub probe_manifest : ProbeManifest → Option Bytes
  pub baseline : StaticBaseline → Option Bytes

-- `LogSink` takes every payload.
abbrev pub logged : List LogLine → LogLine → Option (Taken BaseSink SinkError)
logged log l = some (record { state = log_only (log ++ l ∷ []); counts = []; error = none })

abbrev relayed : Option (ForwardingSink × Option SinkError) → Option (Taken BaseSink SinkError)
relayed none = none
relayed (some (s, e)) = some (record { state = forwarding s; counts = []; error = e })

unfoldable pub base_sink : Encoders → Sink BaseSink SinkError
base_sink p = record {
  accept_delta_batch = λ m s. elim s [
    | forwarding f ↦ relayed (accept_delta_batch p.delta_batch (λ (b : DeltaBatch). b.resource) f m)
    | log_only log ↦ logged log (batch_line m)
  ];
  accept_manifest = λ m s. elim s [
    | forwarding f ↦
        relayed (accept_manifest p.probe_manifest (λ (b : ProbeManifest). b.resource) f m)
    | log_only log ↦ logged log (manifest_line m)
  ];
  accept_static_baseline = λ m s. elim s [
    | forwarding f ↦
        relayed (accept_static_baseline p.baseline (λ (b : StaticBaseline). b.resource) f m)
    | log_only log ↦ logged log (baseline_line m)
  ];
}

abbrev chosen : NewSink → Result BaseSink
chosen (started s) = ok (forwarding s)
chosen (refused_url e) = err (bad_backend e)

-- The choice at the start of `registerRoutes`.
unfoldable pub choose_sink : (Bytes → Option Url) → Config → Result BaseSink
choose_sink parse cfg =
    if is_empty cfg.url then ok (log_only []) else chosen (new_forwarding_sink parse cfg)
