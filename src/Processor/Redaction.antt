-- ===== src/Processor/Redaction.antt =====
-- internal/processor/redaction.go: the processor that hides string literals. A compiled pattern is
-- the parameter that `MatchString` computes.
pub mod Hidden
pub mod Guard
pub mod Exact
use yukon_collector.Base.{
  ℕ, ◌+◌, ◌≡◌, Bool, true, false, ◌||◌, Option, List, [], ◌∷◌, ◌++◌, map, Bytes, length, ltb, ◌==◌,
  if◌then◌else◌,
}
use yukon_collector.Metrics.Counters.{
  PayloadKind, manifest, static_baseline, Count, redacted_literals,
}
use yukon_collector.Payload.{
  PartKind, code, placeholder, other, ConditionPart, BranchOutcome, BranchSite, ProbeLocation,
  DeclaredMethod, DeclaredClass, DeltaBatch, ProbeManifest, StaticBaseline,
}
use yukon_collector.Payload.Reflect.{drop_unknown}
use yukon_collector.Ingest.Sink.{Sink, counted_before}

-- U+2026 in UTF-8.
abbrev pub redacted_text : Bytes
redacted_text = 0xE2 ∷ 0x80 ∷ 0xA6 ∷ []

pub record RedactionConfig : Type 0 where
  pub blocked_values : List (Bytes → Bool)
  pub all_literals : Bool

unfoldable pub enabled : RedactionConfig → Bool
enabled c = c.all_literals || ltb 0 (length c.blocked_values)

unfoldable pub matches_any : List (Bytes → Bool) → Bytes → Bool
matches_any [] text = false
matches_any (re ∷ res) text = if re text then true else matches_any res text

unfoldable pub blocks : RedactionConfig → Bytes → Bool
blocks c text = if c.all_literals then true else matches_any c.blocked_values text

abbrev pub is_exempt : PartKind → Bool
is_exempt code = true
is_exempt placeholder = true
is_exempt (other k) = false

-- A loop that rewrites a list in place and adds up what it replaced.
unfoldable pub rewrite : {A : Type 0} → (A → A × ℕ) → List A → List A × ℕ
rewrite f [] = ([], 0)
rewrite f (x ∷ xs) = ((f x).0 ∷ (rewrite f xs).0, (f x).1 + (rewrite f xs).1)

unfoldable pub redact_part : RedactionConfig → ConditionPart → ConditionPart × ℕ
redact_part c p =
    if is_exempt p.kind
    then (p, 0)
    else if blocks c p.text
    then (record p { text = redacted_text }, 1)
    else (p, 0)

unfoldable pub redact_parts : RedactionConfig → List ConditionPart → List ConditionPart × ℕ
redact_parts c = rewrite (redact_part c)

unfoldable pub redact_outcome : RedactionConfig → BranchOutcome → BranchOutcome × ℕ
redact_outcome c o =
    let (parts, n) = redact_parts c o.case_label in (record { case_label = parts }, n)

unfoldable pub redact_site : RedactionConfig → BranchSite → BranchSite × ℕ
redact_site c s =
    let (condition, n) = redact_parts c s.condition in
    let (outcomes, k) = rewrite (redact_outcome c) s.outcomes in
    (record { condition = condition; outcomes = outcomes }, n + k)

unfoldable pub redact_sites : RedactionConfig → List BranchSite → List BranchSite × ℕ
redact_sites c = rewrite (redact_site c)

unfoldable pub redact_probe : RedactionConfig → ProbeLocation → ProbeLocation × ℕ
redact_probe c p =
    let (sites, n) = redact_sites c p.branch_sites in (record p { branch_sites = sites }, n)

unfoldable pub redact_method : RedactionConfig → DeclaredMethod → DeclaredMethod × ℕ
redact_method c m =
    let (sites, n) = redact_sites c m.branch_sites in (record m { branch_sites = sites }, n)

unfoldable pub redact_class : RedactionConfig → DeclaredClass → DeclaredClass × ℕ
redact_class c k =
    let (methods, n) = rewrite (redact_method c) k.methods in (record k { methods = methods }, n)

unfoldable pub record_count : PayloadKind → ℕ → List Count
record_count payload n = if n == 0 then [] else redacted_literals n payload ∷ []

-- The payloads that the next sink is given.
unfoldable pub redact_batch : DeltaBatch → DeltaBatch
redact_batch b = record b { rest = drop_unknown b.rest }

unfoldable pub redact_manifest : RedactionConfig → ProbeManifest → ProbeManifest × ℕ
redact_manifest c m =
    let (probes, n) = rewrite (redact_probe c) m.probes in
    (record m { probes = probes; rest = drop_unknown m.rest }, n)

unfoldable pub redact_baseline : RedactionConfig → StaticBaseline → StaticBaseline × ℕ
redact_baseline c b =
    let (classes, n) = rewrite (redact_class c) b.declared_classes in
    (record b { declared_classes = classes; rest = drop_unknown b.rest }, n)

unfoldable pub redaction : {S E : Type 0} → RedactionConfig → Sink S E → Sink S E
redaction c next = record {
  accept_delta_batch = λ b s. next.accept_delta_batch (redact_batch b) s;
  accept_manifest = λ m s.
      let (m', n) = redact_manifest c m in
      counted_before (record_count manifest n) (next.accept_manifest m' s);
  accept_static_baseline = λ b s.
      let (b', n) = redact_baseline c b in
      counted_before (record_count static_baseline n) (next.accept_static_baseline b' s);
}
