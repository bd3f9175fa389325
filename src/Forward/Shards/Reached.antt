-- ===== src/Forward/Shards/Reached.antt =====
-- Each shard of the sink runs as one shard does alone.
use yukon_collector.Base.{
  ℕ, zero, suc, ◌≡◌, refl, true, List, [], ◌∷◌, map, All, All-append, All-split,
}
use yukon_collector.Forward.Config.{Config}
use yukon_collector.Forward.Worker.{
  System, Step, Reach, exited, idle_system, refuse_closed, reserve_bytes, refuse_bytes, send,
  refuse_full, close, stop, look, look_stopped, receive, wake_stopped, deliver_item, release_item,
  drain_item, end_item, release_drained, exit, by_worker,
}
use yukon_collector.Forward.Worker
use yukon_collector.Forward.Shards.{
  Shards, idle_systems, idle_shards, close_one, stop_one, ShardsStep, at_one, close_all, stop_all,
  return, ShardsReach, here, next,
}

module _ (cfg : Config) (largest : ℕ) where
  abbrev pub IsReached : System → Type 0
  IsReached s = Reach cfg largest idle_system s

  idle-IsReached : (n : ℕ) → All IsReached (idle_systems n)
  unfolding idle_systems
  idle-IsReached zero = tt
  idle-IsReached (suc n) = (Worker.here, idle-IsReached n)

  close-IsReached :
      (ss : List System)
      → All IsReached ss
      → All (λ (s : System). s.sending ≡ []) ss
      → All IsReached (map close_one ss)
  close-IsReached [] r h = tt
  close-IsReached (s ∷ ss) (a, r) (e, h) = (Worker.next a (close e refl), close-IsReached ss r h)

  stop-IsReached :
      (ss : List System)
      → All IsReached ss
      → All (λ (s : System). s.closed ≡ true) ss
      → All IsReached (map stop_one ss)
  stop-IsReached [] r h = tt
  stop-IsReached (s ∷ ss) (a, r) (e, h) = (Worker.next a (stop e refl), stop-IsReached ss r h)

  ShardsStep-IsReached :
      {f g : Shards}
      → ShardsStep cfg largest f g
      → All IsReached f.systems
      → All IsReached g.systems
  ShardsStep-IsReached (at_one before behind s t st q local new e) h =
      let (front, (own, rest)) = All-split IsReached before (s ∷ behind) (rw q at h) in
      rw e (All-append IsReached before (t ∷ behind) front (Worker.next own st, rest))
  ShardsStep-IsReached {f = f} (close_all q e) h = rw e (close-IsReached f.systems h q)
  ShardsStep-IsReached {f = f} (stop_all q e) h = rw e (stop-IsReached f.systems h q)
  ShardsStep-IsReached (return q e) h = rw e h

  pub ShardsReach-IsReached :
      (n : ℕ) {f : Shards} → ShardsReach cfg largest (idle_shards n) f → All IsReached f.systems
  unfolding idle_shards
  ShardsReach-IsReached n here = idle-IsReached n
  ShardsReach-IsReached n (next r st) = ShardsStep-IsReached st (ShardsReach-IsReached n r)
