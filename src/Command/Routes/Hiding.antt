-- ===== src/Command/Routes/Hiding.antt =====
-- cmd/otherlode-collector/routes.go: what the processors in their order keep from the sink.
use yukon_collector.Base.{◌≡◌, refl, ap, Bool-cases, true, inl, inr, Option, Bytes, is_empty}
use yukon_collector.Metrics.Counters.{deltas, manifest, static_baseline}
use yukon_collector.Ingest.Sink.{Sink, counted_before}
use yukon_collector.Processor.Environment.{EnvironmentConfig, environment}
use yukon_collector.Processor.Environment
use yukon_collector.Processor.Namespace.{NamespaceConfig, namespace}
use yukon_collector.Processor.Namespace
use yukon_collector.Processor.Redaction.{RedactionConfig, enabled}
use yukon_collector.Processor.Redaction.Hidden.{IsSafeBatch, IsSafeManifest, IsSafeBaseline}
use yukon_collector.Processor.Redaction.Guard.{AgreeOn, redaction_guards}
use yukon_collector.Command.Routes.{
  WebRequest, RouteConfig, chain, with_environment, with_namespace, Decoders, Server,
  ingest_handler, serve,
}

abbrev AgreeOnSafe : {S E : Type 0} → RedactionConfig → Sink S E → Sink S E → Type 0
AgreeOnSafe c = AgreeOn (IsSafeBatch c) (IsSafeManifest c) (IsSafeBaseline c)

-- The stamps change the resource only, which shows no literal and holds no other field.
environment-AgreeOn :
    {S E : Type 0} (c : RedactionConfig) (cfg : EnvironmentConfig) (a b : Sink S E)
    → AgreeOnSafe c a b
    → AgreeOnSafe c (environment cfg a) (environment cfg b)
unfolding environment
environment-AgreeOn c cfg a b h = record {
  batches = λ m s p.
      ap (counted_before _)
        (h.batches (record m { resource = (Environment.stamp cfg m.resource deltas).0 }) s p);
  manifests = λ m s p.
      ap (counted_before _)
        (h.manifests (record m { resource = (Environment.stamp cfg m.resource manifest).0 }) s p);
  baselines = λ m s p. ap (counted_before _) (
      h.baselines (record m { resource = (Environment.stamp cfg m.resource static_baseline).0 }) s
        p);
}

namespace-AgreeOn :
    {S E : Type 0} (c : RedactionConfig) (cfg : NamespaceConfig) (a b : Sink S E)
    → AgreeOnSafe c a b
    → AgreeOnSafe c (namespace cfg a) (namespace cfg b)
unfolding namespace
namespace-AgreeOn c cfg a b h = record {
  batches = λ m s p.
      ap (counted_before _)
        (h.batches (record m { resource = (Namespace.stamp cfg m.resource deltas).0 }) s p);
  manifests = λ m s p.
      ap (counted_before _)
        (h.manifests (record m { resource = (Namespace.stamp cfg m.resource manifest).0 }) s p);
  baselines = λ m s p. ap (counted_before _) (
      h.baselines (record m { resource = (Namespace.stamp cfg m.resource static_baseline).0 }) s p);
}

with_environment-AgreeOn :
    {S E : Type 0} (c : RedactionConfig) (cfg : EnvironmentConfig) (a b : Sink S E)
    → AgreeOnSafe c a b
    → AgreeOnSafe c (with_environment cfg a) (with_environment cfg b)
with_environment-AgreeOn c cfg a b h = elim (Bool-cases (is_empty cfg.value)) [
  | inl e ↦ rw e h
  | inr e ↦ rw e (environment-AgreeOn c cfg a b h)
]

with_namespace-AgreeOn :
    {S E : Type 0} (c : RedactionConfig) (cfg : NamespaceConfig) (a b : Sink S E)
    → AgreeOnSafe c a b
    → AgreeOnSafe c (with_namespace cfg a) (with_namespace cfg b)
with_namespace-AgreeOn c cfg a b h = elim (Bool-cases (is_empty cfg.value)) [
  | inl e ↦ rw e h
  | inr e ↦ rw e (namespace-AgreeOn c cfg a b h)
]

-- Sinks that do the same with every payload are the same.
same_sink :
    {S E : Type 0} (a b : Sink S E)
    → AgreeOn (λ m. Unit {0}) (λ m. Unit {0}) (λ m. Unit {0}) a b
    → a ≡ b
same_sink a b h = λ i. record {
  accept_delta_batch = λ m s. h.batches m s tt i;
  accept_manifest = λ m s. h.manifests m s tt i;
  accept_static_baseline = λ m s. h.baselines m s tt i;
}

chain-same :
    {L S E : Type 0} (cfg : RouteConfig L) (a b : Sink S E)
    → enabled cfg.redaction ≡ true
    → AgreeOnSafe cfg.redaction a b
    → chain cfg a ≡ chain cfg b
unfolding chain
chain-same cfg a b on h = rw on (
    same_sink _ _ (
      redaction_guards cfg.redaction _ _ (
        with_namespace-AgreeOn cfg.redaction cfg.namespace _ _
          (with_environment-AgreeOn cfg.redaction cfg.environment a b h))))

-- With the redaction on, whatever the other settings and whatever a request sends, the collector
-- does the same over two sinks that agree on the payloads without a blocked literal and without an
-- unknown field: so neither reaches the sink of a collector, by any route, stamped or not.
pub serve-same :
    {S L E : Type 0} (d : Decoders) (sha256 clean_path : Bytes → Bytes) (cfg : RouteConfig L)
    (a b : Sink S E) (rendered : Option Bytes) (q : WebRequest) (v : Server S L)
    → enabled cfg.redaction ≡ true
    → AgreeOn
        (IsSafeBatch cfg.redaction)
        (IsSafeManifest cfg.redaction)
        (IsSafeBaseline cfg.redaction)
        a
        b
    → serve d sha256 clean_path cfg a rendered q v ≡ serve d sha256 clean_path cfg b rendered q v
unfolding serve ingest_handler
serve-same d sha256 clean_path cfg a b rendered q v on h = rw (chain-same cfg a b on h) refl
