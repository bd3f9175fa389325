-- ===== src/Forward/Shards/Calls.antt =====
-- What one call of `enqueue` does that nothing interrupts, as steps of its shard.
use yukon_collector.Base.{
  ℕ, ◌+◌, ◌≤◌, ◌≡◌, inl, inr, refl, Bool, true, false, not, ◌&&◌, ◌||◌, ◌==◌, leb, ltb, List, [],
  ◌∷◌, ◌++◌, length, append-nil, Bool-cases, if◌then◌else◌, arith,
}
use yukon_collector.Metrics.Counters.{RefuseReason}
use yukon_collector.Forward.Config.{Config}
use yukon_collector.Forward.Shard.{QueuedItem, Shard, reserve, release, try_send}
use yukon_collector.Forward.Shard.Admission.{admits}
use yukon_collector.Forward.Sink.{size}
use yukon_collector.Forward.Sink.Enqueue.{holding}
use yukon_collector.Forward.Worker.{
  System, count_refused, refuse_closed, reserve_bytes, refuse_bytes, send, refuse_full,
}
use yukon_collector.Forward.Shards.{
  ShardEvent, accepts, Shards, GoesTo, at_one, ShardsReach, here, next,
}

-- One call at its shard, from `t` to `u`; `took` says whether it accepts the item.
module _ (cfg : Config) (largest : ℕ) (item : QueuedItem) where
  abbrev pub took : System → Bool
  took t =
      not t.closed && admits (size cfg.queue_size) (size cfg.queue_bytes) (length item.body) t.shard

  abbrev pub new_events : Bool → List ShardEvent
  new_events b = if b then accepts item ∷ [] else []

  abbrev pub Called : Shards → List System → System → List System → Type 0
  Called f before t behind =
      (g : Shards) × ShardsReach cfg largest f g
      × (u : System) × (g.systems ≡ before ++ u ∷ behind)
      × (g.events ≡ f.events ++ new_events (took t))
      × (u.shard ≡ (if took t then holding t.shard item else t.shard))
      × (u.closed ≡ t.closed)

  abbrev has_bytes : System → Bool
  has_bytes t = t.shard.bytes == 0 || leb (t.shard.bytes + length item.body) (size cfg.queue_bytes)

  abbrev has_place : System → Bool
  has_place t = ltb (length t.shard.queue) (size cfg.queue_size)

  abbrev reserved : Shard → Shard
  reserved sh = record { queue = sh.queue; bytes = sh.bytes + length item.body }

  reserve-yes :
      (t : System)
      → has_bytes t ≡ true
      → reserve (length item.body) (size cfg.queue_bytes) t.shard ≡ (reserved t.shard, true)
  unfolding reserve
  reserve-yes t h = ground arith

  reserve-no :
      (t : System)
      → has_bytes t ≡ false
      → reserve (length item.body) (size cfg.queue_bytes) t.shard ≡ (t.shard, false)
  unfolding reserve
  reserve-no t h = ground arith

  module _ (f : Shards) (before : List System) (t : System) (behind : List System)
      (q : f.systems ≡ before ++ t ∷ behind)
      (place : GoesTo (length f.systems) (length before) item) where
    abbrev with_system : System → Shards
    with_system u = record f { systems = before ++ u ∷ behind; events = f.events ++ [] }

    call_closed : t.closed ≡ true → Called f before t behind
    call_closed h =
        let u : System = record t { counts = count_refused t item RefuseReason.shutting_down } in
        (
          with_system u,
          next here (at_one before behind t u (refuse_closed item h refl) q refl (place, tt) refl),
          u,
          refl,
          ground arith,
          ground arith,
          refl,
        )

    call_no_bytes : t.closed ≡ false → has_bytes t ≡ false → Called f before t behind
    call_no_bytes h b =
        let u : System = record t { counts = count_refused t item RefuseReason.queue_full } in
        (
          with_system u,
          next here (
              at_one before behind t u (refuse_bytes item t.shard h (reserve-no t b) refl) q refl
                (place, tt) refl),
          u,
          refl,
          ground arith,
          ground arith,
          refl,
        )

    abbrev in_call : System
    in_call = record t { shard = reserved t.shard; sending = item ∷ t.sending }

    to_in_call :
        length item.body ≤ largest
        → t.closed ≡ false
        → has_bytes t ≡ true
        → ShardsReach cfg largest f (with_system in_call)
    to_in_call fits h b = next here (
        at_one before behind t in_call
          (reserve_bytes item (reserved t.shard) fits h (reserve-yes t b) refl) q refl (place, tt)
          refl)

    call_full :
        length item.body ≤ largest
        → t.closed ≡ false
        → has_bytes t ≡ true
        → has_place t ≡ false
        → Called f before t behind
    unfolding try_send release
    call_full fits h b c =
        let u : System = record in_call {
          shard = release (length item.body) (reserved t.shard);
          sending = t.sending;
          counts = count_refused in_call item RefuseReason.queue_full;
        } in
        (
          record f { systems = before ++ u ∷ behind; events = (f.events ++ []) ++ [] },
          next (to_in_call fits h b) (
              at_one before behind in_call u (refuse_full [] t.sending item refl (rw c refl) refl)
                refl refl tt refl),
          u,
          refl,
          ground (arith, append-nil f.events),
          ground arith,
          refl,
        )

    call_taken :
        length item.body ≤ largest
        → t.closed ≡ false
        → has_bytes t ≡ true
        → has_place t ≡ true
        → Called f before t behind
    unfolding try_send
    call_taken fits h b c =
        let sh : Shard = record {
          queue = t.shard.queue ++ item ∷ [];
          bytes = t.shard.bytes + length item.body;
        } in
        let u : System = record in_call {
          shard = sh;
          sending = t.sending;
          accepted_items = t.accepted_items ++ item ∷ [];
        } in
        (
          record f {
            systems = before ++ u ∷ behind;
            events = (f.events ++ []) ++ accepts item ∷ [];
          },
          next (to_in_call fits h b) (
              at_one before behind in_call u (send [] t.sending item sh refl (rw c refl) refl) refl
                refl tt refl),
          u,
          refl,
          ground (arith, append-nil f.events),
          ground arith,
          refl,
        )

    pub call : length item.body ≤ largest → Called f before t behind
    call fits = elim (Bool-cases t.closed) [
      | inl h ↦ call_closed h
      | inr h ↦ elim (Bool-cases (has_bytes t)) [
        | inr b ↦ call_no_bytes h b
        | inl b ↦ elim (Bool-cases (has_place t)) [
          | inr c ↦ call_full fits h b c
          | inl c ↦ call_taken fits h b c
        ]
      ]
    ]
