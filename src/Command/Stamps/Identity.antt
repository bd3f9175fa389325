-- ===== src/Command/Stamps/Identity.antt =====
-- cmd/otherlode-collector/main.go: the namespace setting beside the check of ingest/handler.go.
use yukon_collector.Base.{
  ◌≡◌, ◌≢◌, refl, sym, ap, ◌∙◌, ◌⊎◌, inl, inr, Bool-cases, Option-cases, true, false, ◌||◌, none,
  some, [], Bytes, codes, bytes_eq, bytes_eq_sound, is_empty, is_empty_sound, is_empty_complete,
}
use yukon_collector.Text.Space.{trim_space, trim_space-nil}
use yukon_collector.Text.Space.Idempotent.{trim_space_same}
use yukon_collector.Text.Utf8.{valid_string}
use yukon_collector.Metrics.Counters.{PayloadKind}
use yukon_collector.Payload.{Resource}
use yukon_collector.Ingest.Validate.{validate_resource, is_dot_segment}
use yukon_collector.Ingest.Validate.Identity.{
  IsDots, IsIdentified, identified, passes, is_dot_segment_sound,
}
use yukon_collector.Processor.Action.{Action, insert, upsert, parse_action}
use yukon_collector.Processor.Namespace.{NamespaceConfig, overwrite, stamp_resource}
use yukon_collector.Command.Settings.{SettingError, not_utf8, unparsable, set_without, out_of_range}
use yukon_collector.Command.Settings.Outcome.{Yields}
use yukon_collector.Command.Stamps.{
  namespace_name, namespace_action, no_namespace, resolve_namespace,
}

-- Whatever passes the check of the handler passes it with the stamp too.
abbrev pub KeepsIdentity : NamespaceConfig → Type 0
KeepsIdentity cfg =
    (res : Resource) (p : PayloadKind)
    → validate_resource (some res) ≡ none
    → validate_resource (some (stamp_resource cfg res p).0) ≡ none

named_by :
    (res : Resource) (v : Bytes)
    → ¬ IsDots (trim_space v)
    → IsIdentified res
    → IsIdentified (record res { service_namespace = v })
named_by res v h i = record {
  named = i.named;
  reachable = i.reachable;
  reachable_namespace = h;
  instance_set = i.instance_set;
  run_set = i.run_set;
}

overwritten :
    (a : Action) (value : Bytes) (res : Resource)
    → validate_resource (some res) ≡ none
    → validate_resource (some (record res { service_namespace = value })) ≡ none
    → validate_resource (some (overwrite a value res)) ≡ none
overwritten insert value res old new = old
overwritten upsert value res old new = new

keeps : (cfg : NamespaceConfig) → ¬ IsDots (trim_space cfg.value) → KeepsIdentity cfg
unfolding stamp_resource
keeps cfg h res p v =
    let set =
      passes _ (
        named_by res (trim_space cfg.value) (rw (trim_space_same cfg.value) h)
          (identified res v)) in
    elim (Bool-cases (is_empty (trim_space res.service_namespace))) [
      | inl e ↦ rw e set
      | inr e ↦
          elim (Bool-cases (bytes_eq (trim_space res.service_namespace) (trim_space cfg.value))) [
            | inl f ↦ rw (e, f) v
            | inr f ↦ rw (e, f) (overwritten cfg.action (trim_space cfg.value) res v set)
          ]
    ]

-- The namespace of the variable, trimmed, is UTF-8 and the action is the one that was asked for. The
-- processor is off exactly when it is empty, and then no action is set; else it keeps identities.
pub record IsAsked (value_raw action_raw : Bytes) (cfg : NamespaceConfig) : Type 0 where
  pub trimmed : cfg.value ≡ trim_space value_raw
  pub encoded : valid_string cfg.value ≡ true
  pub action_read : parse_action action_raw ≡ some cfg.action
  pub no_action_alone : cfg.value ≡ [] → action_raw ≡ []
  pub keeps_identity : KeepsIdentity cfg

-- What an error is about.
pub data IsFault (value_raw action_raw : Bytes) (e : SettingError) : Type 0 where
  encoding_fault :
      valid_string (trim_space value_raw) ≡ false
      → e ≡ not_utf8 namespace_name
      → IsFault value_raw action_raw e
  action_fault :
      parse_action action_raw ≡ none
      → e ≡ unparsable namespace_action
      → IsFault value_raw action_raw e
  lone_action :
      trim_space value_raw ≡ []
      → action_raw ≢ []
      → e ≡ set_without namespace_action namespace_name
      → IsFault value_raw action_raw e
  dots :
      IsDots (trim_space value_raw)
      → e ≡ out_of_range namespace_name
      → IsFault value_raw action_raw e

parse_action-nil : parse_action [] ≡ some insert
unfolding parse_action is_empty
parse_action-nil = refl

empty-ne-IsDots : ¬ IsDots []
empty-ne-IsDots (inl e) = cc
empty-ne-IsDots (inr e) = cc

off :
    (value_raw action_raw : Bytes) (action : Action)
    → trim_space value_raw ≡ []
    → valid_string (trim_space value_raw) ≡ true
    → action_raw ≡ []
    → parse_action action_raw ≡ some action
    → IsAsked value_raw action_raw no_namespace
off value_raw action_raw action b u c a = record {
  trimmed = sym b;
  encoded = ap valid_string (sym b) ∙ u;
  action_read = ap parse_action c ∙ parse_action-nil;
  no_action_alone = λ e. c;
  keeps_identity = keeps no_namespace (rw trim_space-nil empty-ne-IsDots);
}

IsDots-cases :
    (v : Bytes)
    → (IsDots v × ((bytes_eq v (codes ".") || bytes_eq v (codes "..")) ≡ true))
      ⊎ ((¬ IsDots v) × ((bytes_eq v (codes ".") || bytes_eq v (codes "..")) ≡ false))
IsDots-cases v = elim (Bool-cases (bytes_eq v (codes "."))) [
  | inl e ↦ inl (inl (bytes_eq_sound v _ e), rw e refl)
  | inr e ↦ elim (Bool-cases (bytes_eq v (codes ".."))) [
    | inl f ↦ inl (inr (bytes_eq_sound v _ f), rw (e, f) refl)
    | inr f ↦ inr (is_dot_segment_sound v (unfold is_dot_segment in rw (e, f) refl), rw (e, f) refl)
  ]
]

-- The namespace setting that starts the program is the variable's text without the spaces around it,
-- valid UTF-8, with the action asked for, which is not set where the text is blank; and the stamp of
-- the processor with that setting leaves a resource that the handler's check passes one that it
-- passes. Every error goes with a text that is not UTF-8, an action that is none, an action without a
-- namespace, or the namespace "." or "..".
pub resolve_namespace_lem :
    (value_raw action_raw : Bytes)
    → Yields
        (IsAsked value_raw action_raw)
        (IsFault value_raw action_raw)
        (resolve_namespace value_raw action_raw)
unfolding resolve_namespace
resolve_namespace_lem value_raw action_raw =
    let value = trim_space value_raw in
    elim (Bool-cases (valid_string value)) [
      | inr u ↦ rw u (inr (_, refl, encoding_fault u refl))
      | inl u ↦ elim (Option-cases (parse_action action_raw)) [
        | inl a ↦ rw (u, a) (inr (_, refl, action_fault a refl))
        | inr (action, a) ↦ elim (Bool-cases (is_empty value)) [
          | inl b ↦ elim (Bool-cases (is_empty action_raw)) [
            | inl c ↦
                rw (u, a, b, c)
                  (inl (
                    _,
                    refl,
                    off value_raw action_raw action (is_empty_sound _ b) u (is_empty_sound _ c) a,
                  ))
            | inr c ↦
                rw (u, a, b, c)
                  (inr (_, refl, lone_action (is_empty_sound _ b) (is_empty_complete _ c) refl))
          ]
          | inr b ↦ elim (IsDots-cases value) [
            | inl (d, t) ↦ rw (u, a, b, t) (inr (_, refl, dots d refl))
            | inr (d, t) ↦
                rw (u, a, b, t)
                  (inl (
                    _,
                    refl,
                    record {
                      trimmed = refl;
                      encoded = u;
                      action_read = a;
                      no_action_alone = λ e. absurd (is_empty_complete _ b e);
                      keeps_identity = keeps _ (rw (trim_space_same value_raw) d);
                    },
                  ))
          ]
        ]
      ]
    ]
