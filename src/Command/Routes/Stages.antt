-- ===== src/Command/Routes/Stages.antt =====
-- cmd/otherlode-collector/routes.go: the processors in their order as what they make of a payload.
use yukon_collector.Base.{
  ◌≡◌, refl, sym, ◌∙◌, ap, append_assoc, Bool-cases, inl, inr, Option, none, some, List, [], ◌++◌,
  is_empty, if◌then◌else◌,
}
use yukon_collector.Metrics.Counters.{Count, deltas, manifest, static_baseline}
use yukon_collector.Payload.{DeltaBatch, ProbeManifest, StaticBaseline}
use yukon_collector.Ingest.Sink.{Sink, Taken, counted_before}
use yukon_collector.Processor.Environment.{EnvironmentConfig, environment}
use yukon_collector.Processor.Environment
use yukon_collector.Processor.Namespace.{NamespaceConfig, namespace}
use yukon_collector.Processor.Namespace
use yukon_collector.Processor.Redaction.{
  RedactionConfig, enabled, redaction, redact_batch, redact_manifest, redact_baseline, record_count,
}
use yukon_collector.Command.Routes.{
  RouteConfig, chain, with_environment, with_namespace, with_redaction,
}

-- What a processor hands on for a payload, and the counts that it makes.
pub record Stage : Type 0 where
  pub of_batch : DeltaBatch → DeltaBatch × List Count
  pub of_manifest : ProbeManifest → ProbeManifest × List Count
  pub of_baseline : StaticBaseline → StaticBaseline × List Count

abbrev pub through : {S E : Type 0} → Stage → Sink S E → Sink S E
through r next = record {
  accept_delta_batch =
      λ m s. counted_before (r.of_batch m).1 (next.accept_delta_batch (r.of_batch m).0 s);
  accept_manifest =
      λ m s. counted_before (r.of_manifest m).1 (next.accept_manifest (r.of_manifest m).0 s);
  accept_static_baseline =
      λ m s. counted_before (r.of_baseline m).1 (next.accept_static_baseline (r.of_baseline m).0 s);
}

abbrev pub skipped : Stage
skipped = record { of_batch = λ m. (m, []); of_manifest = λ m. (m, []); of_baseline = λ m. (m, []) }

abbrev pub environment_stage : EnvironmentConfig → Stage
environment_stage cfg = record {
  of_batch = λ m.
      let (res, cs) = Environment.stamp cfg m.resource deltas in (record m { resource = res }, cs);
  of_manifest = λ m.
      let (res, cs) = Environment.stamp cfg m.resource manifest in
      (record m { resource = res }, cs);
  of_baseline = λ m.
      let (res, cs) = Environment.stamp cfg m.resource static_baseline in
      (record m { resource = res }, cs);
}

abbrev pub namespace_stage : NamespaceConfig → Stage
namespace_stage cfg = record {
  of_batch = λ m.
      let (res, cs) = Namespace.stamp cfg m.resource deltas in (record m { resource = res }, cs);
  of_manifest = λ m.
      let (res, cs) = Namespace.stamp cfg m.resource manifest in (record m { resource = res }, cs);
  of_baseline = λ m.
      let (res, cs) = Namespace.stamp cfg m.resource static_baseline in
      (record m { resource = res }, cs);
}

abbrev pub redaction_stage : RedactionConfig → Stage
redaction_stage c = record {
  of_batch = λ m. (redact_batch m, []);
  of_manifest = λ m. let (m', n) = redact_manifest c m in (m', record_count manifest n);
  of_baseline = λ m. let (m', n) = redact_baseline c m in (m', record_count static_baseline n);
}

counted_before_nil : {S E : Type 0} (o : Option (Taken S E)) → o ≡ counted_before [] o
counted_before_nil none = refl
counted_before_nil (some t) = refl

through-skipped : {S E : Type 0} (sink : Sink S E) → sink ≡ through skipped sink
through-skipped sink = λ i. record {
  accept_delta_batch = λ m s. counted_before_nil (sink.accept_delta_batch m s) i;
  accept_manifest = λ m s. counted_before_nil (sink.accept_manifest m s) i;
  accept_static_baseline = λ m s. counted_before_nil (sink.accept_static_baseline m s) i;
}

redaction_through :
    {S E : Type 0} (c : RedactionConfig) (sink : Sink S E)
    → redaction c sink ≡ through (redaction_stage c) sink
unfolding redaction
redaction_through c sink = λ i. record {
  accept_delta_batch = λ m s. counted_before_nil (sink.accept_delta_batch (redact_batch m) s) i;
  accept_manifest = (redaction c sink).accept_manifest;
  accept_static_baseline = (redaction c sink).accept_static_baseline;
}

counted_before_append :
    {S E : Type 0} (cs ds : List Count) (o : Option (Taken S E))
    → counted_before cs (counted_before ds o) ≡ counted_before (cs ++ ds) o
counted_before_append cs ds none = refl
counted_before_append cs ds (some t) =
    ap (λ counts. some (record t { counts = counts })) (sym (append_assoc cs ds t.counts))

-- One processor behind another.
abbrev pub then_stage : Stage → Stage → Stage
then_stage r q = record {
  of_batch = λ m. let (m', cs) = r.of_batch m in let (m'', ds) = q.of_batch m' in (m'', cs ++ ds);
  of_manifest =
      λ m. let (m', cs) = r.of_manifest m in let (m'', ds) = q.of_manifest m' in (m'', cs ++ ds);
  of_baseline =
      λ m. let (m', cs) = r.of_baseline m in let (m'', ds) = q.of_baseline m' in (m'', cs ++ ds);
}

through-through :
    {S E : Type 0} (r q : Stage) (sink : Sink S E)
    → through r (through q sink) ≡ through (then_stage r q) sink
through-through r q sink = λ i. record {
  accept_delta_batch = λ m s.
      let (m', cs) = r.of_batch m in
      let (m'', ds) = q.of_batch m' in
      counted_before_append cs ds (sink.accept_delta_batch m'' s) i;
  accept_manifest = λ m s.
      let (m', cs) = r.of_manifest m in
      let (m'', ds) = q.of_manifest m' in
      counted_before_append cs ds (sink.accept_manifest m'' s) i;
  accept_static_baseline = λ m s.
      let (m', cs) = r.of_baseline m in
      let (m'', ds) = q.of_baseline m' in
      counted_before_append cs ds (sink.accept_static_baseline m'' s) i;
}

-- The processors that are on, outermost first; one that is off hands the payload on.
abbrev pub stages : {L : Type 0} → RouteConfig L → Stage
stages cfg = then_stage (if enabled cfg.redaction then redaction_stage cfg.redaction else skipped) (
    then_stage (if is_empty cfg.namespace.value then skipped else namespace_stage cfg.namespace)
      (if is_empty cfg.environment.value then skipped else environment_stage cfg.environment))

with_environment-through :
    {S E : Type 0} (cfg : EnvironmentConfig) (sink : Sink S E)
    → with_environment cfg sink
      ≡ through (if is_empty cfg.value then skipped else environment_stage cfg) sink
unfolding environment
with_environment-through cfg sink = elim (Bool-cases (is_empty cfg.value)) [
  | inl e ↦ rw e (through-skipped sink)
  | inr e ↦ rw e refl
]

with_namespace-through :
    {S E : Type 0} (cfg : NamespaceConfig) (sink : Sink S E)
    → with_namespace cfg sink
      ≡ through (if is_empty cfg.value then skipped else namespace_stage cfg) sink
unfolding namespace
with_namespace-through cfg sink = elim (Bool-cases (is_empty cfg.value)) [
  | inl e ↦ rw e (through-skipped sink)
  | inr e ↦ rw e refl
]

with_redaction-through :
    {S E : Type 0} (cfg : RedactionConfig) (sink : Sink S E)
    → with_redaction cfg sink ≡ through (if enabled cfg then redaction_stage cfg else skipped) sink
with_redaction-through cfg sink = elim (Bool-cases (enabled cfg)) [
  | inl e ↦ rw e (redaction_through cfg sink)
  | inr e ↦ rw e (through-skipped sink)
]

-- The chain hands each payload on as the stages make it, in front of their counts.
pub chain-through :
    {L S E : Type 0} (cfg : RouteConfig L) (sink : Sink S E)
    → chain cfg sink ≡ through (stages cfg) sink
unfolding chain
chain-through cfg sink =
    let inner = with_environment cfg.environment sink in
    let first = if enabled cfg.redaction then redaction_stage cfg.redaction else skipped in
    let second = if is_empty cfg.namespace.value then skipped else namespace_stage cfg.namespace in
    let third =
      if is_empty cfg.environment.value then skipped else environment_stage cfg.environment in
    with_redaction-through cfg.redaction (with_namespace cfg.namespace inner)
    ∙ ap (through first) (
        with_namespace-through cfg.namespace inner
        ∙ ap (through second) (with_environment-through cfg.environment sink)
        ∙ through-through second third sink)
    ∙ through-through first (then_stage second third) sink
