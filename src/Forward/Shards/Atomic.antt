-- ===== src/Forward/Shards/Atomic.antt =====
-- `enqueue` as Forward.Sink has it, in one step, against the steps of the shards.
use yukon_collector.Base.{
  ℕ, zero, suc, ◌≤◌, ◌<◌, ◌^◌, ◌≡◌, refl, sym, ap, ◌∙◌, Bool, not, ◌&&◌, Option, none, some, List,
  [], ◌∷◌, ◌++◌, map, length, get_elem?, set, set_same, All, All-append, All-split, if◌then◌else◌,
  arith,
}
use yukon_collector.Forward.Config.{Config}
use yukon_collector.Forward.Shard.{QueuedItem, Shard}
use yukon_collector.Forward.Shard.Admission.{admits}
use yukon_collector.Forward.Sink.{ForwardingSink, SinkError, size, enqueue, refused}
use yukon_collector.Forward.Sink.Enqueue.{holding, enqueue_lem, enqueue_answer}
use yukon_collector.Forward.Worker.{System}
use yukon_collector.Forward.Shards.{ShardEvent, accepts, Shards, ShardsReach}
use yukon_collector.Forward.Shards.Calls.{took, new_events, Called, call}

-- The two models of the sink agree on the shards and on `closed`.
pub record Agree (cfg : Config) (f : Shards) (s : ForwardingSink) : Type 0 where
  pub same_cfg : s.cfg ≡ cfg
  pub same_shards : map (λ (t : System). t.shard) f.systems ≡ s.shards
  pub same_closed : All (λ (t : System). t.closed ≡ s.closed) f.systems

abbrev shards_of : List System → List Shard
shards_of ss = map (λ (t : System). t.shard) ss

length-shards_of : (ss : List System) → length (shards_of ss) ≡ length ss
length-shards_of [] = refl
length-shards_of (s ∷ ss) = ap suc (length-shards_of ss)

shards_of-set :
    (before behind : List System) (t u : System)
    → shards_of (before ++ u ∷ behind)
      ≡ set (shards_of (before ++ t ∷ behind)) (length before) u.shard
shards_of-set [] behind t u = refl
shards_of-set (b ∷ before) behind t u = ap (λ x. b.shard ∷ x) (shards_of-set before behind t u)

abbrev Found : List System → ℕ → Shard → Type 0
Found ss i sh =
    (before : List System) × (t : System) × (behind : List System) × (ss ≡ before ++ t ∷ behind)
    × (length before ≡ i)
    × (t.shard ≡ sh)

find :
    (ss : List System) (i : ℕ) (sh : Shard) → get_elem? (shards_of ss) i ≡ some sh → Found ss i sh
find [] i sh e = absurd (cc)
find (s ∷ ss) zero sh e = ([], s, ss, refl, refl, ground arith)
find (s ∷ ss) (suc i) sh e =
    let (before, t, behind, q, l, h) = find ss i sh e in
    (s ∷ before, t, behind, ap (λ x. s ∷ x) q, ap suc l, h)

abbrev pub accepted_unless : QueuedItem → Option SinkError → List ShardEvent
accepted_unless item none = accepts item ∷ []
accepted_unless item (some e) = []

module _ (cfg : Config) (largest : ℕ) (f : Shards) (s : ForwardingSink) (item : QueuedItem)
    (agree : Agree cfg f s) where
  abbrev takes : Shard → Bool
  takes sh =
      not s.closed && admits (size s.cfg.queue_size) (size s.cfg.queue_bytes) (length item.body) sh

  answer_shards :
      (i : ℕ) (sh : Shard)
      → get_elem? s.shards i ≡ some sh
      → (enqueue_answer s item i sh).0.shards
        ≡ set s.shards i (if takes sh then holding sh item else sh)
  unfolding refused
  answer_shards i sh e = ground (arith, set_same s.shards i sh)

  answer_rest :
      (i : ℕ) (sh : Shard)
      → ((enqueue_answer s item i sh).0.cfg ≡ s.cfg)
        × ((enqueue_answer s item i sh).0.closed ≡ s.closed)
        × (accepted_unless item (enqueue_answer s item i sh).1
            ≡ (if takes sh then accepts item ∷ [] else []))
  unfolding refused
  answer_rest i sh = ground arith

  -- The call at the shard that was found, against the answer of `enqueue`.
  abbrev Simulated : ForwardingSink × Option SinkError → Type 0
  Simulated answer =
      (g : Shards) × ShardsReach cfg largest f g
      × Agree cfg g answer.0
      × (g.events ≡ f.events ++ accepted_unless item answer.1)

  simulate :
      (i : ℕ) (sh : Shard) (before : List System) (t : System) (behind : List System)
      → get_elem? s.shards i ≡ some sh
      → f.systems ≡ before ++ t ∷ behind
      → length before ≡ i
      → t.shard ≡ sh
      → Called cfg largest item f before t behind
      → Simulated (enqueue_answer s item i sh)
  simulate i sh before t behind at_i q l h (g, run, u, systems, events, shard, closed) =
      let (fronts, (own, rest)) =
        All-split (λ (x : System). x.closed ≡ s.closed) before (t ∷ behind)
          (rw q at agree.same_closed) in
      let same_takes : took cfg largest item t ≡ takes sh = rw (own, h, agree.same_cfg) refl in
      let (same_cfg, same_closed, same_events) = answer_rest i sh in
      let was : shards_of (before ++ t ∷ behind) ≡ s.shards =
        sym (ap shards_of q) ∙ agree.same_shards in
      let now : u.shard ≡ (if takes sh then holding sh item else sh) =
        shard
        ∙ ap (λ b. if b then holding t.shard item else t.shard) same_takes
        ∙ ap (λ x. if takes sh then holding x item else x) h in
      (
        g,
        run,
        record {
          same_cfg = same_cfg ∙ agree.same_cfg;
          same_shards =
              ap shards_of systems
              ∙ shards_of-set before behind t u
              ∙ rw (was, l, now) (sym (answer_shards i sh at_i));
          same_closed =
              rw (systems, same_closed)
                (All-append (λ (x : System). x.closed ≡ s.closed) before (u ∷ behind) fronts
                  (closed ∙ own, rest));
        },
        events
            ∙ ap (λ x. f.events ++ x)
                (ap (new_events cfg largest item) same_takes ∙ sym same_events),
      )

  -- Where the shards agree with the sink on the configuration, the queues and `closed`: a call of
  -- `enqueue` on 1 to 2 ^ 32 - 1 shards, with a body of at most `largest` bytes, returns, and the
  -- shards can take steps to a state that agrees with the new sink and in which the item was
  -- accepted exactly if the call gave no error.
  pub enqueue_call :
      length item.body ≤ largest
      → 0 < length s.shards
      → length s.shards < 2 ^ 32
      → (answer : ForwardingSink × Option SinkError) × (enqueue s item ≡ some answer)
        × (g : Shards) × ShardsReach cfg largest f g
        × Agree cfg g answer.0
        × (g.events ≡ f.events ++ accepted_unless item answer.1)
  enqueue_call fits some_shard few =
      let (i, sh, index, at_i, e) = enqueue_lem s item some_shard few in
      let (before, t, behind, q, l, h) = find f.systems i sh (rw agree.same_shards at_i) in
      let width : length s.shards ≡ length f.systems =
        sym (ap length agree.same_shards) ∙ length-shards_of f.systems in
      let (g, run, agrees, events) =
        simulate i sh before t behind at_i q l h
          (call cfg largest item f before t behind q (rw (← width, l) index) fits) in
      (enqueue_answer s item i sh, e, g, run, agrees, events)
