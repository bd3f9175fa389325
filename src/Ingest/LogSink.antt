-- ===== src/Ingest/LogSink.antt =====
-- ingest/logsink.go: what the sink without a backend writes for each payload, a message and its
-- attributes.
use yukon_collector.Base.{
  ℕ, ◌+◌, Bool, false, Option, none, some, List, [], ◌∷◌, Bytes, codes, length, ℤ,
}
use yukon_collector.Payload.{
  Resource, ProbeLocation, DeclaredMethod, DeclaredClass, DeltaBatch, ProbeManifest, StaticBaseline,
}

pub data LogValue : Type 0 where
  text : Bytes → LogValue
  flag : Bool → LogValue
  entries : ℕ → LogValue
  number : ℤ → LogValue

pub record LogLine : Type 0 where
  pub message : Bytes
  pub attributes : List (Bytes × LogValue)

-- `GetResource`, whose own accessors give the zero value where there is no resource.
abbrev get_resource : Option Resource → Resource
get_resource none = record {
  service_namespace = [];
  service_name = [];
  service_instance_id = [];
  run_id = [];
  environment = [];
  test_run = false;
}
get_resource (some r) = r

-- The attributes that every line begins with.
abbrev identity : Resource → List (Bytes × LogValue) → List (Bytes × LogValue)
identity r more =
    (codes "namespace", text r.service_namespace)
    ∷ (codes "service", text r.service_name)
    ∷ (codes "instance", text r.service_instance_id)
    ∷ (codes "run", text r.run_id)
    ∷ (codes "environment", text r.environment)
    ∷ (codes "test_run", flag r.test_run)
    ∷ more

unfoldable pub call_edge_count : List ProbeLocation → ℕ
call_edge_count [] = 0
call_edge_count (p ∷ ps) = p.calls + call_edge_count ps

unfoldable pub referenced_class_count : List ProbeLocation → ℕ
referenced_class_count [] = 0
referenced_class_count (p ∷ ps) = p.referenced_classes + referenced_class_count ps

unfoldable pub method_calls : List DeclaredMethod → ℕ
method_calls [] = 0
method_calls (m ∷ ms) = m.calls + method_calls ms

unfoldable pub declared_call_edge_count : List DeclaredClass → ℕ
declared_call_edge_count [] = 0
declared_call_edge_count (c ∷ cs) = method_calls c.methods + declared_call_edge_count cs

unfoldable pub method_references : List DeclaredMethod → ℕ
method_references [] = 0
method_references (m ∷ ms) = m.referenced_classes + method_references ms

unfoldable pub declared_referenced_class_count : List DeclaredClass → ℕ
declared_referenced_class_count [] = 0
declared_referenced_class_count (c ∷ cs) =
    c.referenced_classes + method_references c.methods + declared_referenced_class_count cs

unfoldable pub batch_line : DeltaBatch → LogLine
batch_line b = record {
  message = codes "received delta batch";
  attributes = identity (get_resource b.resource) (
      (codes "deltas", entries b.deltas)
      ∷ (codes "endpoint_deltas", entries b.endpoint_deltas)
      ∷ (codes "dependency_deltas", entries b.dependency_deltas)
      ∷ []);
}

unfoldable pub manifest_line : ProbeManifest → LogLine
manifest_line m = record {
  message = codes "received probe manifest";
  attributes = identity (get_resource m.resource) (
      (codes "probes", entries (length m.probes))
      ∷ (codes "call_edges", entries (call_edge_count m.probes))
      ∷ (codes "class_locations", entries m.class_locations)
      ∷ (codes "skipped_classes", entries m.skipped_classes)
      ∷ (codes "endpoints", entries m.endpoints)
      ∷ (codes "disabled_endpoint_modules", entries m.disabled_endpoint_modules)
      ∷ (codes "dependencies", entries m.dependencies)
      ∷ (codes "referenced_classes", entries (referenced_class_count m.probes))
      ∷ (codes "class_references", entries m.class_references)
      ∷ (codes "external_classes", entries m.external_classes)
      ∷ (codes "references_recorded", flag m.references_recorded)
      ∷ (codes "dependencies_listed", flag m.dependencies_listed)
      ∷ []);
}

unfoldable pub baseline_line : StaticBaseline → LogLine
baseline_line b = record {
  message = codes "received static baseline";
  attributes = identity (get_resource b.resource) (
      (codes "scanned_at", number b.scanned_at)
      ∷ (codes "chunk", number b.chunk_index)
      ∷ (codes "chunk_count", number b.chunk_count)
      ∷ (codes "declared_classes", entries (length b.declared_classes))
      ∷ (codes "declared_call_edges", entries (declared_call_edge_count b.declared_classes))
      ∷ (
        codes "declared_referenced_classes",
        entries (declared_referenced_class_count b.declared_classes),
      )
      ∷ (codes "statically_unsafe_classes", entries b.statically_unsafe_classes)
      ∷ (codes "unreadable_classes", entries b.unreadable_classes)
      ∷ (codes "unprobed_classes", entries b.unprobed_classes)
      ∷ []);
}
