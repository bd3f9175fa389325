-- ===== src/Ingest/Validate/Identity.antt =====
-- Which payloads pass.
use yukon_collector.Base.{
  ℕ, ◌<◌, ◌≡◌, ◌≢◌, ◌↔◌, ◌⊎◌, inl, inr, refl, sym, ap, ◌∙◌, true, false, Option, none, some,
  Bool-cases, [], ◌∷◌, Bytes, codes, bytes_eq, bytes_eq_sound, is_empty, is_empty_complete, ℤ, pos,
  negsuc, arith,
}
use yukon_collector.Text.Space.{trim_space}
use yukon_collector.Payload.{Resource, StaticBaseline}
use yukon_collector.Ingest.Validate.{
  Invalid, is_dot_segment, validate_resource, check_chunks, or_else, validate_static_baseline,
}

some-inj : {a b : Resource} → some a ≡ some b → a ≡ b
some-inj e = cc

-- A text that no URL path can name.
abbrev pub IsDots : Bytes → Type 0
IsDots v = (v ≡ codes ".") ⊎ (v ≡ codes "..")

-- The identity that a sink needs.
pub record IsIdentified (res : Resource) : Type 0 where
  pub named : trim_space res.service_name ≢ []
  pub reachable : ¬ IsDots (trim_space res.service_name)
  pub reachable_namespace : ¬ IsDots (trim_space res.service_namespace)
  pub instance_set : res.service_instance_id ≢ []
  pub run_set : res.run_id ≢ []

is_empty_no : (s : Bytes) → s ≢ [] → is_empty s ≡ false
unfolding is_empty
is_empty_no [] h = absurd (h refl)
is_empty_no (c ∷ s) h = refl

is_dot_segment_no : (v : Bytes) → ¬ IsDots v → is_dot_segment v ≡ false
unfolding is_dot_segment
is_dot_segment_no v h = elim (Bool-cases (bytes_eq v (codes "."))) [
  | inl e ↦ absurd (h (inl (bytes_eq_sound v (codes ".") e)))
  | inr e ↦ elim (Bool-cases (bytes_eq v (codes ".."))) [
    | inl f ↦ absurd (h (inr (bytes_eq_sound v (codes "..") f)))
    | inr f ↦ rw (e, f)
  ]
]

absurd_test : false ≡ true → ⊥
absurd_test h = cc

pub is_dot_segment_sound : (v : Bytes) → is_dot_segment v ≡ false → ¬ IsDots v
unfolding is_dot_segment bytes_eq
is_dot_segment_sound v h (inl e) = absurd_test (sym h ∙ ap is_dot_segment e)
is_dot_segment_sound v h (inr e) = absurd_test (sym h ∙ ap is_dot_segment e)

-- The checks of a resource, each with its answer.
pub identified : (res : Resource) → validate_resource (some res) ≡ none → IsIdentified res
unfolding validate_resource
identified res h = record {
  named = is_empty_complete _ (ground arith);
  reachable = is_dot_segment_sound _ (ground arith);
  reachable_namespace = is_dot_segment_sound _ (ground arith);
  instance_set = is_empty_complete _ (ground arith);
  run_set = is_empty_complete _ (ground arith);
}

pub passes : (res : Resource) → IsIdentified res → validate_resource (some res) ≡ none
unfolding validate_resource
passes res v = rw (
  is_empty_no _ v.named,
  is_dot_segment_no _ v.reachable,
  is_dot_segment_no _ v.reachable_namespace,
  is_empty_no _ v.instance_set,
  is_empty_no _ v.run_set,
)

-- A payload has a resource that identifies its sender.
abbrev pub HasIdentity : Option Resource → Type 0
HasIdentity r = (res : Resource) × (r ≡ some res) × IsIdentified res

-- The check of the resource passes exactly the payloads whose resource is there, has a service name
-- that is not blank, an instance ID and a run ID, and has neither "." nor ".." for its service name
-- or namespace, spaces around both aside.
pub validate_resource_lem : (r : Option Resource) → (validate_resource r ≡ none) ↔ HasIdentity r
validate_resource_lem none = (λ h. absurd (unfold validate_resource in cc h), λ h. absurd (cc h.1))
validate_resource_lem (some res) =
    (λ h. (res, refl, identified res h), λ h. passes res (rw (some-inj h.1) h.2))

-- The chunk fields place the chunk among the chunks of a scan with a time.
abbrev pub IsChunk : ℤ → ℤ → ℤ → Type 0
IsChunk scanned_at count index =
    (t : ℕ) × (n : ℕ) × (i : ℕ) × (scanned_at ≡ pos t)
    × (0 < t)
    × (count ≡ pos n)
    × (index ≡ pos i)
    × (i < n)

chunks_sound : (t n i : ℤ) → check_chunks t n i ≡ none → IsChunk t n i
unfolding check_chunks
chunks_sound (pos t) (pos n) (pos i) h = (t, n, i, refl, ground arith, refl, refl, ground arith)
chunks_sound (pos t) (pos n) (negsuc i) h = absurd (ground arith)
chunks_sound (pos t) (negsuc n) i h = absurd (ground arith)
chunks_sound (negsuc t) n i h = absurd (ground arith)

chunks_complete : (t n i : ℤ) → IsChunk t n i → check_chunks t n i ≡ none
unfolding check_chunks
chunks_complete t n i (a, b, c, et, ht, en, ei, h) = rw (et, en, ei) (ground arith)

or_else_sound : (a b : Option Invalid) → or_else a b ≡ none → (a ≡ none) × (b ≡ none)
unfolding or_else
or_else_sound none b h = (refl, h)
or_else_sound (some e) b h = absurd (cc h)

-- A static baseline passes exactly when its resource does, its scan time is positive, and its chunk
-- index is a number from 0 to its chunk count less one.
pub validate_static_baseline_lem :
    (b : StaticBaseline)
    → (validate_static_baseline b ≡ none)
      ↔ (HasIdentity b.resource × IsChunk b.scanned_at b.chunk_count b.chunk_index)
unfolding validate_static_baseline
validate_static_baseline_lem b = (
  λ h.
      let (r, k) = or_else_sound (validate_resource b.resource) _ h in
      ((validate_resource_lem b.resource).0 r, chunks_sound _ _ _ k),
  λ h. rw ((validate_resource_lem b.resource).1 h.0) (chunks_complete _ _ _ h.1),
)
