-- ===== src/Processor/Redaction/Exact.antt =====
-- The redaction changes the blocked literals and nothing else, and counts them.
use mathlib.Core.List.{map-append}
use yukon_collector.Base.{
  ℕ, ◌+◌, ◌≡◌, refl, sym, Bool, not, ◌&&◌, List, [], ◌∷◌, ◌++◌, map, if◌then◌else◌, arith,
}
use yukon_collector.Payload.{
  ConditionPart, BranchOutcome, BranchSite, ProbeLocation, DeclaredMethod, DeclaredClass,
  ProbeManifest, StaticBaseline,
}
use yukon_collector.Processor.Redaction.{
  RedactionConfig, redacted_text, blocks, is_exempt, rewrite, redact_part, redact_parts,
  redact_outcome, redact_site, redact_sites, redact_probe, redact_method, redact_class,
  redact_manifest, redact_baseline,
}

-- The condition parts of a payload, in order.
abbrev pub parts_of_outcomes : List BranchOutcome → List ConditionPart
parts_of_outcomes [] = []
parts_of_outcomes (o ∷ os) = o.case_label ++ parts_of_outcomes os

abbrev pub parts_of_sites : List BranchSite → List ConditionPart
parts_of_sites [] = []
parts_of_sites (s ∷ ss) = (s.condition ++ parts_of_outcomes s.outcomes) ++ parts_of_sites ss

abbrev pub parts_of_probes : List ProbeLocation → List ConditionPart
parts_of_probes [] = []
parts_of_probes (p ∷ ps) = parts_of_sites p.branch_sites ++ parts_of_probes ps

abbrev pub parts_of_methods : List DeclaredMethod → List ConditionPart
parts_of_methods [] = []
parts_of_methods (m ∷ ms) = parts_of_sites m.branch_sites ++ parts_of_methods ms

abbrev pub parts_of_classes : List DeclaredClass → List ConditionPart
parts_of_classes [] = []
parts_of_classes (k ∷ ks) = parts_of_methods k.methods ++ parts_of_classes ks

module _ (c : RedactionConfig) where
  -- A part that the configuration hides: no code, no placeholder, and its text is blocked.
  abbrev pub is_secret : ConditionPart → Bool
  is_secret p = not (is_exempt p.kind) && blocks c p.text

  abbrev pub hide : ConditionPart → ConditionPart
  hide p = if is_secret p then record p { text = redacted_text } else p

  abbrev pub secrets : List ConditionPart → ℕ
  secrets [] = 0
  secrets (p ∷ ps) = (if is_secret p then 1 else 0) + secrets ps

  secrets-append : (ps qs : List ConditionPart) → secrets (ps ++ qs) ≡ secrets ps + secrets qs
  secrets-append [] qs = omega arith
  secrets-append (p ∷ ps) qs = omega (arith, secrets-append ps qs)

  -- Parts `qs` with a count `n` are what the redaction should make of `ps`.
  abbrev pub Hides : List ConditionPart → List ConditionPart → ℕ → Type 0
  Hides ps qs n = (qs ≡ map hide ps) × (n ≡ secrets ps)

  Hides-append :
      (ps qs ps' qs' : List ConditionPart) (n k : ℕ)
      → Hides ps qs n
      → Hides ps' qs' k
      → Hides (ps ++ ps') (qs ++ qs') (n + k)
  Hides-append ps qs ps' qs' n k (e, f) (e', f') =
      (rw (e, e') (sym (map-append hide ps ps')), omega (arith, secrets-append ps ps'))

  Hides-parts : (ps : List ConditionPart) → Hides ps (redact_parts c ps).0 (redact_parts c ps).1
  unfolding redact_parts redact_part rewrite
  Hides-parts [] = (refl, refl)
  Hides-parts (p ∷ ps) = ground (arith, Hides-parts ps)

  Hides-outcomes :
      (os : List BranchOutcome)
      → Hides
          (parts_of_outcomes os)
          (parts_of_outcomes (rewrite (redact_outcome c) os).0)
          (rewrite (redact_outcome c) os).1
  unfolding rewrite redact_outcome
  Hides-outcomes [] = (refl, refl)
  Hides-outcomes (o ∷ os) =
      Hides-append o.case_label _ _ _ _ _ (Hides-parts o.case_label) (Hides-outcomes os)

  Hides-sites :
      (ss : List BranchSite)
      → Hides (parts_of_sites ss) (parts_of_sites (redact_sites c ss).0) (redact_sites c ss).1
  unfolding rewrite redact_sites redact_site
  Hides-sites [] = (refl, refl)
  Hides-sites (s ∷ ss) =
      Hides-append (s.condition ++ parts_of_outcomes s.outcomes) _ _ _ _ _
        (Hides-append s.condition _ _ _ _ _ (Hides-parts s.condition) (Hides-outcomes s.outcomes))
        (Hides-sites ss)

  Hides-probes :
      (ps : List ProbeLocation)
      → Hides
          (parts_of_probes ps)
          (parts_of_probes (rewrite (redact_probe c) ps).0)
          (rewrite (redact_probe c) ps).1
  unfolding rewrite redact_probe
  Hides-probes [] = (refl, refl)
  Hides-probes (p ∷ ps) =
      Hides-append (parts_of_sites p.branch_sites) _ _ _ _ _ (Hides-sites p.branch_sites)
        (Hides-probes ps)

  Hides-methods :
      (ms : List DeclaredMethod)
      → Hides
          (parts_of_methods ms)
          (parts_of_methods (rewrite (redact_method c) ms).0)
          (rewrite (redact_method c) ms).1
  unfolding rewrite redact_method
  Hides-methods [] = (refl, refl)
  Hides-methods (m ∷ ms) =
      Hides-append (parts_of_sites m.branch_sites) _ _ _ _ _ (Hides-sites m.branch_sites)
        (Hides-methods ms)

  Hides-classes :
      (ks : List DeclaredClass)
      → Hides
          (parts_of_classes ks)
          (parts_of_classes (rewrite (redact_class c) ks).0)
          (rewrite (redact_class c) ks).1
  unfolding rewrite redact_class
  Hides-classes [] = (refl, refl)
  Hides-classes (k ∷ ks) =
      Hides-append (parts_of_methods k.methods) _ _ _ _ _ (Hides-methods k.methods)
        (Hides-classes ks)

-- The condition parts of a redacted manifest are those of the manifest, in order, each part that is
-- neither code nor a placeholder and whose text is blocked with its text replaced and its kind kept;
-- the count is the number of such parts; and the resource is as it was. The same of a baseline.
pub redaction_exact :
    (c : RedactionConfig) (m : ProbeManifest) (b : StaticBaseline)
    → Hides c
        (parts_of_probes m.probes)
        (parts_of_probes (redact_manifest c m).0.probes)
        (redact_manifest c m).1
      × ((redact_manifest c m).0.resource ≡ m.resource)
      × Hides c
          (parts_of_classes b.declared_classes)
          (parts_of_classes (redact_baseline c b).0.declared_classes)
          (redact_baseline c b).1
      × ((redact_baseline c b).0.resource ≡ b.resource)
unfolding redact_manifest redact_baseline
redaction_exact c m b = (Hides-probes c m.probes, refl, Hides-classes c b.declared_classes, refl)
