-- ===== src/Forward/Shards/Routing.antt =====
-- What a step does to the items of its shard, and that each item stays where its key sends it.
use yukon_collector.Base.{
  ℕ, zero, suc, ◌+◌, ◌≡◌, refl, sym, ap, ◌∙◌, List, [], ◌∷◌, ◌++◌, map, length, append_assoc, All,
  All-append, All-split, arith,
}
use yukon_collector.Forward.Config.{Config}
use yukon_collector.Forward.Shard.{QueuedItem, reserve, release, try_send, try_receive}
use yukon_collector.Forward.Worker.{
  System, Step, refuse_closed, reserve_bytes, refuse_bytes, send, refuse_full, close, stop, look,
  look_stopped, receive, wake_stopped, deliver_item, release_item, drain_item, end_item,
  release_drained, exit,
}
use yukon_collector.Forward.Worker.Invariant.{in_hand}
use yukon_collector.Forward.Shards.{
  ShardEvent, accepts, ends, entering, events_of, Shards, idle_systems, idle_shards, GoesTo,
  close_one, stop_one, ShardsStep, at_one, close_all, stop_all, return, ShardsReach, here, next,
}

-- The items that a shard has accepted and that have no outcome yet, oldest first.
abbrev pub pending : System → List QueuedItem
pending s = in_hand s.worker ++ s.shard.queue

-- The last two hold the items that a step brings and its events.
pub data Effect (s t : System) (xs : List QueuedItem) (es : List ShardEvent) : Type 0 where
  quiet : es ≡ [] → pending t ≡ pending s → t.sending ≡ s.sending → Effect s t xs es
  joins :
      (item : QueuedItem)
      → es ≡ []
      → xs ≡ item ∷ []
      → pending t ≡ pending s
      → t.sending ≡ item ∷ s.sending
      → Effect s t xs es
  leaves :
      (item : QueuedItem) (before behind : List QueuedItem)
      → es ≡ []
      → pending t ≡ pending s
      → s.sending ≡ before ++ item ∷ behind
      → t.sending ≡ before ++ behind
      → Effect s t xs es
  arrives :
      (item : QueuedItem) (before behind : List QueuedItem)
      → es ≡ accepts item ∷ []
      → pending t ≡ pending s ++ item ∷ []
      → s.sending ≡ before ++ item ∷ behind
      → t.sending ≡ before ++ behind
      → Effect s t xs es
  departs :
      (item : QueuedItem)
      → es ≡ ends item ∷ []
      → pending s ≡ item ∷ pending t
      → t.sending ≡ s.sending
      → Effect s t xs es

pub Step-Effect :
    {cfg : Config} {largest : ℕ} {s t : System} (st : Step cfg largest s t)
    → Effect s t (entering st) (events_of st)
unfolding reserve release try_send try_receive
Step-Effect (refuse_closed item c e) = quiet refl (ground arith) (ground arith)
Step-Effect (reserve_bytes item sh fits c r e) = joins item refl refl (ground arith) (ground arith)
Step-Effect (refuse_bytes item sh c r e) = quiet refl (ground arith) (ground arith)
Step-Effect {s = s} (send before behind item sh q r e) =
    arrives item before behind refl
      (ground (arith, append_assoc (in_hand s.worker) s.shard.queue (item ∷ []))) q (ground arith)
Step-Effect (refuse_full before behind item q r e) =
    leaves item before behind refl (ground arith) q (ground arith)
Step-Effect (close q e) = quiet refl (ground arith) (ground arith)
Step-Effect (stop c e) = quiet refl (ground arith) (ground arith)
Step-Effect (look w c e) = quiet refl (ground arith) (ground arith)
Step-Effect (look_stopped w c e) = quiet refl (ground arith) (ground arith)
Step-Effect (receive item sh w r e) = quiet refl (ground arith) (ground arith)
Step-Effect (wake_stopped w c e) = quiet refl (ground arith) (ground arith)
Step-Effect (deliver_item item fuel now w cs d o e) =
    departs item refl (ground arith) (ground arith)
Step-Effect (release_item item w e) = quiet refl (ground arith) (ground arith)
Step-Effect (drain_item item sh w r e) = quiet refl (ground arith) (ground arith)
Step-Effect (end_item item w d e) = departs item refl (ground arith) (ground arith)
Step-Effect (release_drained item w e) = quiet refl (ground arith) (ground arith)
Step-Effect (exit w r e) = quiet refl (ground arith) (ground arith)

-- Every item of a shard, on its way in or accepted, satisfies `P`.
module _ (P : QueuedItem → Type 0) where
  abbrev pub Holds : System → Type 0
  Holds s = All P s.sending × All P (pending s)

  Effect-Holds :
      {s t : System} {xs : List QueuedItem} {es : List ShardEvent}
      → Effect s t xs es
      → All P xs
      → Holds s
      → Holds t
  Effect-Holds (quiet _ p q) new (a, b) = (rw q a, rw p b)
  Effect-Holds (joins item _ x p q) new (a, b) = (rw q ((rw x at new).0, a), rw p b)
  Effect-Holds (leaves item before behind _ p q r) new (a, b) =
      let (front, (_, rest)) = All-split P before (item ∷ behind) (rw q at a) in
      (rw r (All-append P before behind front rest), rw p b)
  Effect-Holds {s = s} (arrives item before behind _ p q r) new (a, b) =
      let (front, (own, rest)) = All-split P before (item ∷ behind) (rw q at a) in
      (
        rw r (All-append P before behind front rest),
        rw p (All-append P (pending s) (item ∷ []) b (own, tt)),
      )
  Effect-Holds (departs item _ p q) new (a, b) = (rw q a, (rw p at b).1)

  pub Step-Holds :
      {cfg : Config} {largest : ℕ} {s t : System} (st : Step cfg largest s t)
      → All P (entering st)
      → Holds s
      → Holds t
  Step-Holds st = Effect-Holds (Step-Effect st)

-- The items of each shard are those whose key the shard's index is; the first index is `k`.
abbrev pub RoutedFrom : ℕ → ℕ → List System → Type 0
RoutedFrom n k [] = Unit
RoutedFrom n k (s ∷ ss) = Holds (GoesTo n k) s × RoutedFrom n (suc k) ss

abbrev pub At : ℕ → ℕ → List System → System → List System → Type 0
At n k before s behind =
    RoutedFrom n k before
    × Holds (GoesTo n (k + length before)) s
    × RoutedFrom n (suc (k + length before)) behind

pub RoutedFrom-split :
    (n k : ℕ) (before : List System) (s : System) (behind : List System)
    → RoutedFrom n k (before ++ s ∷ behind)
    → At n k before s behind
RoutedFrom-split n k [] s behind (h, r) = let e : k + 0 ≡ k = omega arith in (tt, rw e h, rw e r)
RoutedFrom-split n k (b ∷ before) s behind (h, r) =
    let (front, own, rest) = RoutedFrom-split n (suc k) before s behind r in
    let e : k + suc (length before) ≡ suc k + length before = omega arith in
    ((h, front), rw e own, rw e rest)

pub RoutedFrom-join :
    (n k : ℕ) (before : List System) (s : System) (behind : List System)
    → At n k before s behind
    → RoutedFrom n k (before ++ s ∷ behind)
RoutedFrom-join n k [] s behind (_, h, r) =
    let e : k + 0 ≡ k = omega arith in (rw e at h, rw e at r)
RoutedFrom-join n k (b ∷ before) s behind ((h, front), own, rest) =
    let e : k + suc (length before) ≡ suc k + length before = omega arith in
    (h, RoutedFrom-join n (suc k) before s behind (front, rw e at own, rw e at rest))

-- `f` leaves the items alone.
RoutedFrom-map :
    (n k : ℕ) (f : System → System) (ss : List System)
    → ((s : System) → ((f s).sending ≡ s.sending) × (pending (f s) ≡ pending s))
    → RoutedFrom n k ss
    → RoutedFrom n k (map f ss)
RoutedFrom-map n k f [] h r = tt
RoutedFrom-map n k f (s ∷ ss) h ((a, b), r) =
    ((rw (h s).0 a, rw (h s).1 b), RoutedFrom-map n (suc k) f ss h r)

idle_systems-RoutedFrom : (n k m : ℕ) → RoutedFrom n k (idle_systems m)
unfolding idle_systems
idle_systems-RoutedFrom n k zero = tt
idle_systems-RoutedFrom n k (suc m) = ((tt, tt), idle_systems-RoutedFrom n (suc k) m)

pub length-idle_systems : (m : ℕ) → length (idle_systems m) ≡ m
unfolding idle_systems
length-idle_systems zero = refl
length-idle_systems (suc m) = ap suc (length-idle_systems m)

length-map : (f : System → System) (ss : List System) → length (map f ss) ≡ length ss
length-map f [] = refl
length-map f (s ∷ ss) = ap suc (length-map f ss)

length-middle :
    (before behind : List System) (s t : System)
    → length (before ++ t ∷ behind) ≡ length (before ++ s ∷ behind)
length-middle [] behind s t = refl
length-middle (b ∷ before) behind s t = ap suc (length-middle before behind s t)

pub record IsRouted (n : ℕ) (ss : List System) : Type 0 where
  pub width : length ss ≡ n
  pub places : RoutedFrom n 0 ss

pub ShardsStep-IsRouted :
    {cfg : Config} {largest n : ℕ} {f g : Shards}
    → ShardsStep cfg largest f g
    → IsRouted n f.systems
    → IsRouted n g.systems
ShardsStep-IsRouted {n = n} {f = f} (at_one before behind s t st q local new e) v =
    let (front, own, rest) = RoutedFrom-split n 0 before s behind (rw q at v.places) in
    let z : 0 + length before ≡ length before = omega arith in
    let own' = Step-Holds (GoesTo n (length before)) st (rw v.width at new) (rw z at own) in
    rw e (record {
      width = length-middle before behind s t ∙ ap length (sym q) ∙ v.width;
      places = RoutedFrom-join n 0 before t behind (front, rw z own', rest);
    })
ShardsStep-IsRouted {n = n} {f = f} (close_all q e) v = rw e (record {
  width = length-map close_one f.systems ∙ v.width;
  places = RoutedFrom-map n 0 close_one f.systems (λ s. (refl, refl)) v.places;
})
ShardsStep-IsRouted {n = n} {f = f} (stop_all q e) v = rw e (record {
  width = length-map stop_one f.systems ∙ v.width;
  places = RoutedFrom-map n 0 stop_one f.systems (λ s. (refl, refl)) v.places;
})
ShardsStep-IsRouted (return q e) v = rw e v

-- However the shards, the callers and Shutdown interleave, each item is in the shard of its key.
pub ShardsReach-IsRouted :
    {cfg : Config} {largest n : ℕ} {f : Shards}
    → ShardsReach cfg largest (idle_shards n) f
    → IsRouted n f.systems
unfolding idle_shards
ShardsReach-IsRouted {n = n} here = record {
  width = length-idle_systems n;
  places = idle_systems-RoutedFrom n 0 n;
}
ShardsReach-IsRouted (next r st) = ShardsStep-IsRouted st (ShardsReach-IsRouted r)
