-- ===== src/Processor/Redaction/Guard.antt =====
-- What reaches the sink behind the redaction.
use yukon_collector.Base.{◌≡◌, ap}
use yukon_collector.Metrics.Counters.{manifest, static_baseline}
use yukon_collector.Payload.{DeltaBatch, ProbeManifest, StaticBaseline}
use yukon_collector.Ingest.Sink.{Sink, counted_before}
use yukon_collector.Processor.Redaction.{
  RedactionConfig, redact_batch, redact_manifest, redact_baseline, record_count, redaction,
}
use yukon_collector.Processor.Redaction.Hidden.{
  IsSafeBatch, IsSafeManifest, IsSafeBaseline, redact_batch-IsSafe, redact_manifest-IsSafe,
  redact_baseline-IsSafe,
}

-- Two sinks do the same with every payload that satisfies the predicates.
pub record AgreeOn {S E : Type 0} (P : DeltaBatch → Type 0) (Q : ProbeManifest → Type 0)
    (R : StaticBaseline → Type 0) (a b : Sink S E) : Type 0 where
  pub batches : (m : DeltaBatch) (s : S) → P m → a.accept_delta_batch m s ≡ b.accept_delta_batch m s
  pub manifests : (m : ProbeManifest) (s : S) → Q m → a.accept_manifest m s ≡ b.accept_manifest m s
  pub baselines :
      (m : StaticBaseline) (s : S)
      → R m
      → a.accept_static_baseline m s ≡ b.accept_static_baseline m s

-- Two sinks that do the same with payloads that show no blocked literal and hold no unknown field
-- cannot be told apart behind the redaction, whatever the agent sends: so no blocked literal and no
-- unknown field of any payload reaches the sink behind it.
pub redaction_guards :
    {S E : Type 0} (c : RedactionConfig) (next other : Sink S E)
    → AgreeOn (IsSafeBatch c) (IsSafeManifest c) (IsSafeBaseline c) next other
    → AgreeOn (λ m. Unit {0}) (λ m. Unit {0}) (λ m. Unit {0}) (redaction c next) (redaction c other)
unfolding redaction
redaction_guards c next other agree = record {
  batches = λ m s _. agree.batches (redact_batch m) s (redact_batch-IsSafe c m);
  manifests = λ m s _.
      ap (counted_before (record_count manifest (redact_manifest c m).1))
        (agree.manifests (redact_manifest c m).0 s (redact_manifest-IsSafe c m));
  baselines = λ m s _.
      ap (counted_before (record_count static_baseline (redact_baseline c m).1))
        (agree.baselines (redact_baseline c m).0 s (redact_baseline-IsSafe c m));
}
