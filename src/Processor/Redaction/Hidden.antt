-- ===== src/Processor/Redaction/Hidden.antt =====
-- What is left of the literals of a payload.
use yukon_collector.Base.{ℕ, ◌≡◌, ◌⊎◌, true, false, List, [], ◌∷◌, All, arith}
use yukon_collector.Payload.{
  ConditionPart, BranchOutcome, BranchSite, ProbeLocation, DeclaredMethod, DeclaredClass,
  DeltaBatch, ProbeManifest, StaticBaseline,
}
use yukon_collector.Payload.Reflect.Clean.{IsClean, drop_unknown_lem}
use yukon_collector.Processor.Redaction.{
  RedactionConfig, redacted_text, blocks, is_exempt, rewrite, redact_part, redact_parts,
  redact_outcome, redact_site, redact_sites, redact_probe, redact_method, redact_class,
  redact_batch, redact_manifest, redact_baseline,
}

-- A rewriting loop gives each element the property that its body gives.
pub rewrite-All :
    {A : Type 0} (P : A → Type 0) (f : A → A × ℕ) (xs : List A)
    → ((x : A) → P (f x).0)
    → All P (rewrite f xs).0
unfolding rewrite
rewrite-All P f [] h = tt
rewrite-All P f (x ∷ xs) h = (h x, rewrite-All P f xs h)

module _ (c : RedactionConfig) where
  -- The part shows no text that the configuration blocks.
  abbrev pub IsHidden : ConditionPart → Type 0
  IsHidden p = (is_exempt p.kind ≡ true) ⊎ ((p.text ≡ redacted_text) ⊎ (blocks c p.text ≡ false))

  abbrev pub IsHiddenOutcome : BranchOutcome → Type 0
  IsHiddenOutcome o = All IsHidden o.case_label

  abbrev pub IsHiddenSite : BranchSite → Type 0
  IsHiddenSite s = All IsHidden s.condition × All IsHiddenOutcome s.outcomes

  abbrev pub IsHiddenClass : DeclaredClass → Type 0
  IsHiddenClass k = All (λ (m : DeclaredMethod). All IsHiddenSite m.branch_sites) k.methods

  IsHidden-part : (p : ConditionPart) → IsHidden (redact_part c p).0
  unfolding redact_part
  IsHidden-part p = ground arith

  IsHidden-parts : (ps : List ConditionPart) → All IsHidden (redact_parts c ps).0
  unfolding redact_parts
  IsHidden-parts ps = rewrite-All IsHidden (redact_part c) ps IsHidden-part

  hidden_site : (s : BranchSite) → IsHiddenSite (redact_site c s).0
  unfolding redact_site
  hidden_site s = (
    IsHidden-parts s.condition,
    rewrite-All IsHiddenOutcome (redact_outcome c) s.outcomes
        (λ o. unfold redact_outcome in IsHidden-parts o.case_label),
  )

  hidden_sites : (ss : List BranchSite) → All IsHiddenSite (redact_sites c ss).0
  unfolding redact_sites
  hidden_sites ss = rewrite-All IsHiddenSite (redact_site c) ss hidden_site

  -- What the next sink may see of each payload.
  abbrev pub IsSafeBatch : DeltaBatch → Type 0
  IsSafeBatch b = IsClean b.rest

  abbrev pub IsSafeManifest : ProbeManifest → Type 0
  IsSafeManifest m =
      All (λ (p : ProbeLocation). All IsHiddenSite p.branch_sites) m.probes × IsClean m.rest

  abbrev pub IsSafeBaseline : StaticBaseline → Type 0
  IsSafeBaseline b = All IsHiddenClass b.declared_classes × IsClean b.rest

  pub redact_batch-IsSafe : (b : DeltaBatch) → IsSafeBatch (redact_batch b)
  unfolding redact_batch
  redact_batch-IsSafe b = (drop_unknown_lem b.rest).0

  pub redact_manifest-IsSafe : (m : ProbeManifest) → IsSafeManifest (redact_manifest c m).0
  unfolding redact_manifest
  redact_manifest-IsSafe m = (
    rewrite-All _ (redact_probe c) m.probes
        (λ p. unfold redact_probe in hidden_sites p.branch_sites),
    (drop_unknown_lem m.rest).0,
  )

  pub redact_baseline-IsSafe : (b : StaticBaseline) → IsSafeBaseline (redact_baseline c b).0
  unfolding redact_baseline
  redact_baseline-IsSafe b = (
    rewrite-All IsHiddenClass (redact_class c) b.declared_classes (λ k.
        unfold redact_class in
        rewrite-All _ (redact_method c) k.methods
          (λ m. unfold redact_method in hidden_sites m.branch_sites)),
    (drop_unknown_lem b.rest).0,
  )
