-- ===== src/Forward/Deliver/Total.antt =====
-- The retry loop ends: each wait uses up some of the budget.
use yukon_collector.Base.{
  ℕ, zero, suc, ◌+◌, ◌-◌, ◌^◌, ◌≤◌, ◌<◌, ◌≡◌, refl, Bool, true, false, not, Option, none, some,
  List, [], ◌∷◌, if◌then◌else◌, ℤ, pos, negsuc, arith,
}
use yukon_collector.Metrics.Counters.{
  PayloadKind, Count, forward_delivered, forward_dropped, forward_retries, permanent,
  retry_exhausted,
}
use yukon_collector.Forward.Config.{Config}
use yukon_collector.Ingest.Paths.{payload_label}
use yukon_collector.Forward.Shard.{QueuedItem}
use yukon_collector.Forward.Sink.{size}
use yukon_collector.Forward.Deliver.Outcome.{Ends, deliver_from-Ends}
use yukon_collector.Forward.Backoff.{Backoff, new_backoff, next}
use yukon_collector.Forward.Backoff.Jitter.{exact_limit, jittered_bounds, grown_lem}
use yukon_collector.Forward.Attempt.{attempt}
use yukon_collector.Forward.Deliver.{
  World, final_delivery_attempt, slept, waited, counted, deliver_from, deliver, first_backoff,
}

-- The intervals that are reached from a first interval of at least two nanoseconds.
pub record IsRunning (b : Backoff) : Type 0 where
  pub low : 2 ≤ b.interval
  pub capped : b.interval ≤ b.max
  pub short : b.max ≤ exact_limit

-- One step: the wait is positive, the interval stays in its range, and the budget stays.
next_runs :
    (b b' : Backoff) (hint wait : ℤ) (now rand : ℕ)
    → IsRunning b
    → rand < 2 ^ 53
    → next b hint now rand ≡ some (wait, b')
    → (now - b.start < b.max_elapsed)
      × (1 ≤ slept wait)
      × IsRunning b'
      × (b'.start ≡ b.start)
      × (b'.max_elapsed ≡ b.max_elapsed)
unfolding next
next_runs b b' (pos h) wait now rand v r e =
    ground (arith, jittered_bounds b.interval rand, grown_lem b.interval)
next_runs b b' (negsuc h) wait now rand v r e =
    ground (arith, jittered_bounds b.interval rand, grown_lem b.interval)

abbrev Returns : Option (List Count) → Type 0
Returns o = (cs : List Count) × (o ≡ some cs)

branch-Returns :
    (w : World) (p : PayloadKind) (failed retryable stopping : Bool) (retried : Option (List Count))
    → Returns retried
    → Returns (
        if not failed
        then some (forward_delivered p ∷ [])
        else if not retryable
        then some (forward_dropped p permanent ∷ [])
        else if stopping
        then some (final_delivery_attempt w p)
        else retried)
branch-Returns w p false retryable stopping retried r = (forward_delivered p ∷ [], refl)
branch-Returns w p true false stopping retried r = (forward_dropped p permanent ∷ [], refl)
branch-Returns w p true true true retried r = (final_delivery_attempt w p, refl)
branch-Returns w p true true false retried r = r

counted-Returns : (c : Count) (o : Option (List Count)) → Returns o → Returns (counted c o)
counted-Returns c o (cs, e) = (c ∷ cs, rw e)

waited-Returns :
    (w : World) (p : PayloadKind) (stopped : Bool) (again : ℤ → Backoff → Option (List Count))
    (o : Option (ℤ × Backoff))
    → ((wait : ℤ) (b : Backoff) → o ≡ some (wait, b) → Returns (again wait b))
    → Returns (waited w p stopped again o)
waited-Returns w p stopped again none r = (forward_dropped p retry_exhausted ∷ [], refl)
waited-Returns w p true again (some (wait, b)) r = (final_delivery_attempt w p, refl)
waited-Returns w p false again (some (wait, b)) r =
    counted-Returns (forward_retries p) (again wait b) (r wait b refl)

-- With fuel above what is left of the budget, in nanoseconds, the loop returns.
pub deliver_from_total :
    (fuel : ℕ) (w : World) (p : PayloadKind) (k now : ℕ) (b : Backoff)
    → IsRunning b
    → ((i : ℕ) → (w.round i).rand < 2 ^ 53)
    → b.start ≤ now
    → b.max_elapsed - (now - b.start) < fuel
    → Returns (deliver_from fuel w p k now b)
unfolding deliver_from
deliver_from_total zero w p k now b v r s h = elim h [ ]
deliver_from_total (suc fuel) w p k now b v r s h =
    let rd = w.round k in
    let t = now + rd.took in
    let a = attempt w.parse_time t rd.reply in
    branch-Returns w p a.failed a.retryable rd.stopping _ (
      waited-Returns w p rd.stopped_in_wait _ (next b a.retry_after t rd.rand) (λ wait b' e.
        let (left, positive, v', same_start, same_budget) =
          next_runs b b' a.retry_after wait t rd.rand v (r k) e in
        deliver_from_total fuel w p (k + 1) (t + slept wait + rd.late) b' v' r (omega arith)
          (omega arith)))

-- Retry settings under which the loop of every item ends: intervals from two nanoseconds to thirteen
-- days.
pub record IsRetrying (c : Config) : Type 0 where
  pub initial : 2 ≤ size c.retry_initial_interval
  pub max_low : 2 ≤ size c.retry_max_interval
  pub max_high : size c.retry_max_interval ≤ exact_limit

first-IsRunning : (c : Config) (now : ℕ) → IsRetrying c → IsRunning (first_backoff c now)
unfolding new_backoff
first-IsRunning c now v = ground arith

-- With retry intervals from two nanoseconds to the largest that a float64 still holds exactly,
-- whatever the backend and the clock do, and for random numbers below one, the delivery of an item
-- returns on fuel above the retry budget; what it counts is some retries and then exactly one
-- outcome, a delivery or a drop.
pub deliver_lem :
    (fuel : ℕ) (w : World) (c : Config) (item : QueuedItem) (now : ℕ)
    → IsRetrying c
    → ((i : ℕ) → (w.round i).rand < 2 ^ 53)
    → size c.retry_max_elapsed_time < fuel
    → (cs : List Count) × (deliver fuel w c item now ≡ some cs) × Ends (payload_label item.path) cs
unfolding deliver new_backoff
deliver_lem fuel w c item now v r h =
    let (cs, e) =
      deliver_from_total fuel w (payload_label item.path) 0 now (first_backoff c now)
        (first-IsRunning c now v) r (omega arith) (omega arith) in
    (cs, e, deliver_from-Ends fuel w (payload_label item.path) 0 now (first_backoff c now) cs e)
