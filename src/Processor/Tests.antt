-- ===== src/Processor/Tests.antt =====
-- The processors at concrete payloads.
use yukon_collector.Base.{
  ◌≡◌, refl, true, false, some, [], ◌∷◌, codes, bytes_eq, is_empty, if◌then◌else◌, pos,
}
use yukon_collector.Metrics.Counters.{deltas, environment_mismatch, namespace_mismatch}
use yukon_collector.Payload.{Resource, code, other, ProbeManifest, StaticBaseline}
use yukon_collector.Payload.Reflect.{Message, message, end, scalar, singular, drop_unknown}
use yukon_collector.Payload.Reflect.Clean.{IsClean, SameKnown, drop_unknown_lem}
use yukon_collector.Processor.Action.{upsert, parse_action}
use yukon_collector.Processor.Environment
use yukon_collector.Processor.Environment.Stamp
use yukon_collector.Processor.Environment.Stamp.{environment_stamp_lem}
use yukon_collector.Processor.Namespace
use yukon_collector.Processor.Namespace.Stamp as NamespaceStamp
use yukon_collector.Processor.Namespace.Stamp.{namespace_stamp_lem}
use yukon_collector.Processor.Redaction.{RedactionConfig, redact_manifest, redact_baseline}
use yukon_collector.Processor.Redaction.Exact.{
  Hides, parts_of_probes, parts_of_classes, redaction_exact,
}

abbrev resource : Resource
resource = record {
  service_namespace = codes " team ";
  service_name = codes "shop";
  service_instance_id = codes "a";
  run_id = codes "r";
  environment = codes "dev";
  test_run = false;
}

abbrev nested : Message
nested = message (1 ∷ []) (singular (message (2 ∷ []) end) (scalar (3 ∷ []) end))

abbrev manifest : ProbeManifest
manifest = record {
  resource = some resource;
  probes =
      record {
        calls = 3;
        referenced_classes = 1;
        branch_sites =
            record {
              condition =
                  record { kind = code; text = codes "x ==" }
                  ∷ record { kind = other 3; text = codes "secret" }
                  ∷ [];
              outcomes = [];
            }
            ∷ [];
      }
      ∷ [];
  class_locations = 0;
  skipped_classes = 0;
  endpoints = 0;
  disabled_endpoint_modules = 0;
  dependencies = 0;
  class_references = 0;
  external_classes = 0;
  references_recorded = true;
  dependencies_listed = false;
  rest = nested;
}

abbrev baseline : StaticBaseline
baseline = record {
  resource = some resource;
  scanned_at = pos 5;
  chunk_index = pos 0;
  chunk_count = pos 1;
  declared_classes = [];
  statically_unsafe_classes = 0;
  unreadable_classes = 0;
  unprobed_classes = 0;
  rest = nested;
}

abbrev pub rules : RedactionConfig
rules = record {
  blocked_values = (λ text. bytes_eq text (codes "secret")) ∷ [];
  all_literals = false;
}

-- A sink that takes everything.
upsert_action : parse_action (codes "Upsert") ≡ some upsert
unfolding parse_action bytes_eq is_empty
upsert_action = refl

drop_unknown_lem_example : IsClean (drop_unknown nested) × SameKnown nested (drop_unknown nested)
drop_unknown_lem_example = drop_unknown_lem nested

abbrev environment_rule : Environment.EnvironmentConfig
environment_rule = record { value = codes "prod"; action = upsert }

environment_stamp_lem_example : Environment.stamp_resource environment_rule resource deltas ≡ (
  record resource { environment = codes "prod" },
  (if Stamp.mismatches (codes "prod") (codes "dev") then environment_mismatch deltas ∷ [] else []),
)
environment_stamp_lem_example = environment_stamp_lem environment_rule resource deltas

abbrev namespace_rule : Namespace.NamespaceConfig
namespace_rule = record { value = codes "team"; action = upsert }

namespace_stamp_lem_example : Namespace.stamp_resource namespace_rule resource deltas ≡ (
  record resource {
    service_namespace = NamespaceStamp.kept_or_set upsert (codes "team") (codes " team ");
  },
  (if NamespaceStamp.mismatches (codes "team") (codes " team ")
      then namespace_mismatch deltas ∷ []
      else []),
)
namespace_stamp_lem_example = namespace_stamp_lem namespace_rule resource deltas

redaction_exact_example :
    Hides rules
      (parts_of_probes manifest.probes)
      (parts_of_probes (redact_manifest rules manifest).0.probes)
      (redact_manifest rules manifest).1
    × ((redact_manifest rules manifest).0.resource ≡ manifest.resource)
    × Hides rules
        (parts_of_classes baseline.declared_classes)
        (parts_of_classes (redact_baseline rules baseline).0.declared_classes)
        (redact_baseline rules baseline).1
    × ((redact_baseline rules baseline).0.resource ≡ baseline.resource)
redaction_exact_example = redaction_exact rules manifest baseline
