-- ===== src/Forward/Worker/Invariant.antt =====
-- The accounting of a shard, kept by every step.
use Prim.Native.Nat
use yukon_collector.Base.{
  ℕ, ◌+◌, ◌≤◌, ◌≡◌, ◌≢◌, ◌⊎◌, inl, inr, refl, ap, Bool, true, false, some, List, [], ◌∷◌, ◌++◌,
  length, append_assoc, append-nil, length-append, arith,
}
use yukon_collector.Metrics.Counters.{
  PayloadKind, Count, DropReason, forward_delivered, forward_dropped, forward_retries,
  forward_refused, RefuseReason,
}
use yukon_collector.Metrics.Counters
use yukon_collector.Ingest.Paths.{payload_label}
use yukon_collector.Forward.Config.{Config}
use yukon_collector.Forward.Shard.{QueuedItem, reserve, release, try_send, try_receive}
use yukon_collector.Forward.Sink.{size}
use yukon_collector.Forward.Deliver.{World, deliver, first_backoff, final_delivery_attempt}
use yukon_collector.Forward.Deliver.Outcome.{Ends, IsOutcome, final-Ends, deliver_from-Ends}
use yukon_collector.Forward.Worker.{
  WorkerState, draining, exited, delivering, delivered, ending, ended, System, Step, Reach,
  idle_system, refuse_closed, reserve_bytes, refuse_bytes, send, refuse_full, close, stop, look,
  look_stopped, receive, wake_stopped, deliver_item, release_item, drain_item, end_item,
  release_drained, exit, here, next,
}

-- The body bytes of a list of items.
unfoldable pub total : List QueuedItem → ℕ
total [] = 0
total (item ∷ items) = length item.body + total items

pub total-append : (xs ys : List QueuedItem) → total (xs ++ ys) ≡ total xs + total ys
unfolding total
total-append [] ys = omega arith
total-append (x ∷ xs) ys = omega (arith, total-append xs ys)

-- The item that the worker holds and has no outcome for, and the bytes that it holds.
abbrev pub in_hand : WorkerState → List QueuedItem
in_hand (delivering item) = item ∷ []
in_hand (ending item) = item ∷ []
in_hand _ = []

abbrev pub held : WorkerState → ℕ
held (delivering item) = length item.body
held (delivered item) = length item.body
held (ending item) = length item.body
held (ended item) = length item.body
held _ = 0

-- The worker has seen that Shutdown began.
abbrev pub is_stopped : WorkerState → Bool
is_stopped draining = true
is_stopped exited = true
is_stopped (ending item) = true
is_stopped (ended item) = true
is_stopped _ = false

abbrev pub is_exited : WorkerState → Bool
is_exited exited = true
is_exited _ = false

-- A delivery, or a drop of an item that was queued.
abbrev pub weight : Count → ℕ
weight (forward_delivered p) = 1
weight (forward_dropped p Counters.marshal) = 0
weight (forward_dropped p _) = 1
weight _ = 0

unfoldable pub outcomes : List Count → ℕ
outcomes [] = 0
outcomes (c ∷ cs) = weight c + outcomes cs

pub outcomes-append : (xs ys : List Count) → outcomes (xs ++ ys) ≡ outcomes xs + outcomes ys
unfolding outcomes
outcomes-append [] ys = omega arith
outcomes-append (x ∷ xs) ys = omega (arith, outcomes-append xs ys)

weight_drop :
    (p : PayloadKind) (r : DropReason) → r ≢ Counters.marshal → weight (forward_dropped p r) ≡ 1
weight_drop p Counters.marshal h = absurd (h refl)
weight_drop p _ h = refl

weight_outcome : (p : PayloadKind) (c : Count) → IsOutcome p c → weight c ≡ 1
weight_outcome p c (inl e) = rw e
weight_outcome p c (inr (r, h, e)) = rw e (weight_drop p r h)

pub outcomes-Ends : (p : PayloadKind) (cs : List Count) → Ends p cs → outcomes cs ≡ 1
unfolding outcomes
outcomes-Ends p [] e = absurd e
outcomes-Ends p (c ∷ []) e = omega (arith, weight_outcome p c e)
outcomes-Ends p (c ∷ d ∷ cs) e = omega (arith, ap weight e.0, outcomes-Ends p (d ∷ cs) e.1)

pub middle-ne-nil :
    (before behind : List QueuedItem) (item : QueuedItem) → before ++ item ∷ behind ≢ []
middle-ne-nil [] behind item e = cc
middle-ne-nil (x ∷ before) behind item e = cc

deliver-Ends :
    (fuel : ℕ) (w : World) (c : Config) (item : QueuedItem) (now : ℕ) (cs : List Count)
    → deliver fuel w c item now ≡ some cs
    → Ends (payload_label item.path) cs
unfolding deliver
deliver-Ends fuel w c item now cs e =
    deliver_from-Ends fuel w (payload_label item.path) 0 now (first_backoff c now) cs e

pub record Inv (cfg : Config) (largest : ℕ) (s : System) : Type 0 where
  pub counted : s.shard.bytes ≡ total s.shard.queue + total s.sending + held s.worker
  pub bounded : s.shard.bytes ≤ Nat.max (size cfg.queue_bytes) largest
  pub room : length s.shard.queue ≤ size cfg.queue_size
  pub in_order : s.accepted_items ≡ s.ended_items ++ (in_hand s.worker ++ s.shard.queue)
  pub each_ends : outcomes s.counts ≡ length s.ended_items
  pub closes : (s.closed ≡ false) ⊎ (s.sending ≡ [])
  pub stops : (s.stopping ≡ false) ⊎ (s.closed ≡ true)
  pub drains : (is_stopped s.worker ≡ false) ⊎ (s.stopping ≡ true)
  pub empties : (is_exited s.worker ≡ false) ⊎ (s.shard.queue ≡ [])

idle-Inv : (cfg : Config) (largest : ℕ) → Inv cfg largest idle_system
unfolding total outcomes
idle-Inv cfg largest = record {
  counted = refl;
  bounded = omega arith;
  room = omega arith;
  in_order = refl;
  each_ends = refl;
  closes = inl refl;
  stops = inl refl;
  drains = inl refl;
  empties = inl refl;
}

pub Step-Inv :
    {cfg : Config} {largest : ℕ} {s t : System}
    → Step cfg largest s t
    → Inv cfg largest s
    → Inv cfg largest t
unfolding reserve release try_send try_receive outcomes total
Step-Inv {s = s} (refuse_closed item c e) v = rw e (
    ground (
      arith,
      outcomes-append s.counts
          (forward_refused (payload_label item.path) RefuseReason.shutting_down ∷ []),
    ))
Step-Inv {s = s} (reserve_bytes item sh fits c r e) v = rw e (ground arith)
Step-Inv {s = s} (refuse_bytes item sh c r e) v = rw e (
    ground (
      arith,
      outcomes-append s.counts
          (forward_refused (payload_label item.path) RefuseReason.queue_full ∷ []),
    ))
Step-Inv {s = s} (send before behind item sh q r e) v = rw e (
    ground (
      arith,
      ap total q,
      middle-ne-nil before behind item,
      total-append before (item ∷ behind),
      total-append before behind,
      total-append s.shard.queue (item ∷ []),
      length-append {0} s.shard.queue (item ∷ []),
      append_assoc s.ended_items (in_hand s.worker ++ s.shard.queue) (item ∷ []),
      append_assoc (in_hand s.worker) s.shard.queue (item ∷ []),
    ))
Step-Inv {s = s} (refuse_full before behind item q r e) v = rw e (
    ground (
      arith,
      ap total q,
      middle-ne-nil before behind item,
      total-append before (item ∷ behind),
      total-append before behind,
      outcomes-append s.counts
          (forward_refused (payload_label item.path) RefuseReason.queue_full ∷ []),
    ))
Step-Inv {s = s} (close q e) v = rw e (ground arith)
Step-Inv {s = s} (stop c e) v = rw e (ground arith)
Step-Inv {s = s} (look w c e) v = rw e (ground arith)
Step-Inv {s = s} (look_stopped w c e) v = rw e (ground arith)
Step-Inv {s = s} (receive item sh w r e) v = rw e (ground arith)
Step-Inv {s = s} (wake_stopped w c e) v = rw e (ground arith)
Step-Inv {cfg = cfg} {s = s} (deliver_item item fuel now world cs w d e) v = rw e (
    ground (
      arith,
      outcomes-append s.counts cs,
      outcomes-Ends (payload_label item.path) cs (deliver-Ends fuel world cfg item now cs d),
      length-append {0} s.ended_items (item ∷ []),
      append_assoc s.ended_items (item ∷ []) s.shard.queue,
    ))
Step-Inv {s = s} (release_item item w e) v = rw e (ground arith)
Step-Inv {s = s} (drain_item item sh w r e) v = rw e (ground arith)
Step-Inv {s = s} (end_item item world w e) v = rw e (
    ground (
      arith,
      outcomes-append s.counts (final_delivery_attempt world (payload_label item.path)),
      outcomes-Ends (payload_label item.path) _ (final-Ends world (payload_label item.path)),
      length-append {0} s.ended_items (item ∷ []),
      append_assoc s.ended_items (item ∷ []) s.shard.queue,
    ))
Step-Inv {s = s} (release_drained item w e) v = rw e (ground arith)
Step-Inv {s = s} (exit w r e) v = rw e (ground arith)

-- The accounting holds in every state that a shard reaches from the start.
pub Reach-Inv :
    {cfg : Config} {largest : ℕ} {t : System} → Reach cfg largest idle_system t → Inv cfg largest t
Reach-Inv {cfg = cfg} {largest = largest} here = idle-Inv cfg largest
Reach-Inv (next r st) = Step-Inv st (Reach-Inv r)

-- However the callers, the worker and Shutdown interleave: the shard's byte count is the sum of the
-- bodies that are queued, about to be queued, or with the worker; and it is at most the larger of
-- QueueBytes and the largest body, while the queue holds at most QueueSize items.
pub Reach-bytes :
    {cfg : Config} {largest : ℕ} {t : System}
    → Reach cfg largest idle_system t
    → (t.shard.bytes ≡ total t.shard.queue + total t.sending + held t.worker)
      × (t.shard.bytes ≤ Nat.max (size cfg.queue_bytes) largest)
      × (length t.shard.queue ≤ size cfg.queue_size)
Reach-bytes r = let v = Reach-Inv r in (v.counted, v.bounded, v.room)

-- In every state that a shard reaches, the items that were accepted are, in the order of their
-- acceptance, those whose outcome was counted, then the one that the worker holds, then the queue;
-- and there is one counted outcome for each item that ended.
pub Reach-in_order :
    {cfg : Config} {largest : ℕ} {t : System}
    → Reach cfg largest idle_system t
    → (t.accepted_items ≡ t.ended_items ++ (in_hand t.worker ++ t.shard.queue))
      × (outcomes t.counts ≡ length t.ended_items)
Reach-in_order r = let v = Reach-Inv r in (v.in_order, v.each_ends)

-- In a state that a shard reaches and in which its worker has exited, nothing is lost: every
-- accepted item has its counted outcome, the shard holds no byte, and no caller is on its way to
-- the queue.
pub Reach_exited :
    {cfg : Config} {largest : ℕ} {t : System}
    → Reach cfg largest idle_system t
    → t.worker ≡ exited
    → (t.accepted_items ≡ t.ended_items)
      × (outcomes t.counts ≡ length t.accepted_items)
      × (t.shard.bytes ≡ 0)
      × (t.sending ≡ [])
unfolding total
Reach_exited {t = t} r e = let v = Reach-Inv r in ground (arith, append-nil t.ended_items)
