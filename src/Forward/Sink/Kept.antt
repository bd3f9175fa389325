-- ===== src/Forward/Sink/Kept.antt =====
-- What an Accept call keeps of a payload.
use yukon_collector.Base.{
  ℕ, ◌<◌, ◌^◌, ◌≡◌, ◌≢◌, ◌⊎◌, inl, inr, refl, ◌∙◌, Bool-cases, Option, none, some, [], ◌∷◌, ◌++◌,
  Bytes, length, get_elem?, set,
}
use yukon_collector.Metrics.Counters.{forward_dropped, marshal, RefuseReason}
use yukon_collector.Ingest.Paths.{
  payload_label, delta_batch_path, manifest_path, static_baseline_path,
}
use yukon_collector.Payload.{Resource}
use yukon_collector.Forward.Instance.{Instance, instance_of, shard_key, shard_index}
use yukon_collector.Forward.Shard.{QueuedItem, Shard}
use yukon_collector.Forward.Shard.Admission.{admits}
use yukon_collector.Forward.Sink.{
  ForwardingSink, SinkError, err_queue_full, err_shutting_down, size, enqueue, refused,
  marshal_and_enqueue, accept_delta_batch, accept_manifest, accept_static_baseline,
}
use yukon_collector.Forward.Sink.Enqueue.{holding, enqueue_lem, enqueue_answer}

-- The item is last in the queue of its shard, and no other shard changed.
abbrev pub IsQueued : ForwardingSink → ForwardingSink → QueuedItem → Type 0
IsQueued s s' item =
    (i : ℕ) × (sh : Shard) × (shard_index (shard_key item.owner) (length s.shards) ≡ some i)
    × (get_elem? s.shards i ≡ some sh)
    × (s'.shards ≡ set s.shards i (holding sh item))

-- A payload whose bytes are `encoded` is queued; or it has none, and is counted as dropped; or the
-- call gives an error, and no shard changed.
abbrev pub IsKept :
    ForwardingSink → ForwardingSink → Instance → Bytes → Option Bytes → Option SinkError → Type 0
IsKept s s' owner path encoded error =
    ((body : Bytes) × (encoded ≡ some body)
      × (error ≡ none)
      × IsQueued s s' (record { owner = owner; path = path; body = body }))
    ⊎ (((encoded ≡ none)
          × (error ≡ none)
          × (s'.shards ≡ s.shards)
          × (s'.counts ≡ s.counts ++ forward_dropped (payload_label path) marshal ∷ []))
        ⊎ ((error ≢ none) × (s'.shards ≡ s.shards)))

module _ (s : ForwardingSink) (some_shard : 0 < length s.shards)
    (few : length s.shards < 2 ^ 32) where
  abbrev Outcome :
      Instance → Bytes → Option Bytes → Option (ForwardingSink × Option SinkError) → Type 0
  Outcome owner path encoded o =
      (s' : ForwardingSink) × (e : Option SinkError) × (o ≡ some (s', e))
      × IsKept s s' owner path encoded e

  module _ (owner : Instance) (path body : Bytes) where
    abbrev sent : QueuedItem
    sent = record { owner = owner; path = path; body = body }

    answer-IsKept :
        (i : ℕ) (sh : Shard)
        → shard_index (shard_key owner) (length s.shards) ≡ some i
        → get_elem? s.shards i ≡ some sh
        → enqueue s sent ≡ some (enqueue_answer s sent i sh)
        → Outcome owner path (some body) (enqueue s sent)
    unfolding refused
    answer-IsKept i sh index at_i e = elim (Bool-cases s.closed) [
      | inl c ↦ (
        refused s sent RefuseReason.shutting_down,
        some (err_shutting_down owner),
        e ∙ simp c,
        inr (inr ((λ q. cc), refl)),
      )
      | inr c ↦
          elim (Bool-cases
            (admits (size s.cfg.queue_size) (size s.cfg.queue_bytes) (length body) sh)) [
              | inl a ↦ (
                record s { shards = set s.shards i (holding sh sent) },
                none,
                e ∙ simp (c, a),
                inl (body, refl, refl, (i, sh, index, at_i, refl)),
              )
              | inr a ↦ (
                refused s sent RefuseReason.queue_full,
                some (err_queue_full owner),
                e ∙ simp (c, a),
                inr (inr ((λ q. cc), refl)),
              )
            ]
    ]

    enqueue-IsKept : Outcome owner path (some body) (enqueue s sent)
    enqueue-IsKept =
        let (i, sh, index, at_i, e) = enqueue_lem s sent some_shard few in
        answer-IsKept i sh index at_i e

  module _ {Msg : Type 0} (proto_marshal : Msg → Option Bytes) where
    encoded-IsKept :
        (msg : Msg) (owner : Instance) (path : Bytes) (o : Option Bytes)
        → proto_marshal msg ≡ o
        → Outcome owner path o (marshal_and_enqueue proto_marshal s msg owner path)
    unfolding marshal_and_enqueue
    encoded-IsKept msg owner path none h = (
      record s { counts = s.counts ++ forward_dropped (payload_label path) marshal ∷ [] },
      none,
      rw h refl,
      inr (inl (refl, refl, refl, refl)),
    )
    encoded-IsKept msg owner path (some body) h = rw h (enqueue-IsKept owner path body)

    marshal-IsKept :
        (msg : Msg) (owner : Instance) (path : Bytes)
        → Outcome owner path
            (proto_marshal msg)
            (marshal_and_enqueue proto_marshal s msg owner path)
    marshal-IsKept msg owner path = encoded-IsKept msg owner path (proto_marshal msg) refl

    module _ (get_resource : Msg → Option Resource) where
      pub accept_delta_batch-IsKept :
          (m : Msg)
          → Outcome
              (instance_of (get_resource m))
              delta_batch_path
              (proto_marshal m)
              (accept_delta_batch proto_marshal get_resource s m)
      unfolding accept_delta_batch
      accept_delta_batch-IsKept m = marshal-IsKept m _ _

      pub accept_manifest-IsKept :
          (m : Msg)
          → Outcome
              (instance_of (get_resource m))
              manifest_path
              (proto_marshal m)
              (accept_manifest proto_marshal get_resource s m)
      unfolding accept_manifest
      accept_manifest-IsKept m = marshal-IsKept m _ _

      pub accept_static_baseline-IsKept :
          (m : Msg)
          → Outcome
              (instance_of (get_resource m))
              static_baseline_path
              (proto_marshal m)
              (accept_static_baseline proto_marshal get_resource s m)
      unfolding accept_static_baseline
      accept_static_baseline-IsKept m = marshal-IsKept m _ _
