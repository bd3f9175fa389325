-- ===== src/Forward/Deliver.antt =====
-- internal/forward/forward.go: the delivery of one item, with its retries. The result is the list of
-- the counts that it makes; `none` means that the fuel ran out.
pub mod Outcome
pub mod Total
use yukon_collector.Base.{
  ℕ, zero, suc, ◌+◌, ◌≡◌, Bool, true, false, not, Option, none, some, List, [], ◌∷◌, Bytes,
  if◌then◌else◌, ℤ, pos, negsuc,
}
use yukon_collector.Metrics.Counters.{
  PayloadKind, Count, forward_delivered, forward_dropped, forward_retries, permanent,
  retry_exhausted, shutdown_deadline, shutdown_attempt_failed,
}
use yukon_collector.Ingest.Paths.{payload_label}
use yukon_collector.Forward.Config.{Config}
use yukon_collector.Forward.Shard.{QueuedItem}
use yukon_collector.Forward.Sink.{size}
use yukon_collector.Forward.Backoff.{Backoff, new_backoff, next}
use yukon_collector.Forward.Attempt.{Reply, Attempt, attempt}

-- What the world does in one round of the loop: the reply and the time that it took, whether
-- Shutdown has begun after the failure, the random number, how much longer than asked the wait was,
-- and whether Shutdown began in it.
pub record Round : Type 0 where
  pub reply : Reply
  pub took : ℕ
  pub stopping : Bool
  pub rand : ℕ
  pub late : ℕ
  pub stopped_in_wait : Bool

-- What it does in the one attempt of the shutdown.
pub record Final : Type 0 where
  pub cancelled : Bool
  pub now : ℕ
  pub reply : Reply

pub record World : Type 0 where
  pub parse_time : Bytes → Option ℕ
  pub round : ℕ → Round
  pub final : Final

unfoldable pub final_delivery_attempt : World → PayloadKind → List Count
final_delivery_attempt w payload =
    if w.final.cancelled
    then forward_dropped payload shutdown_deadline ∷ []
    else if (attempt w.parse_time w.final.now w.final.reply).failed
    then forward_dropped payload shutdown_attempt_failed ∷ []
    else forward_delivered payload ∷ []

-- `time.After` of a duration that is not positive fires at once.
abbrev pub slept : ℤ → ℕ
slept (pos n) = n
slept (negsuc n) = 0

abbrev counted : Count → Option (List Count) → Option (List Count)
counted c none = none
counted c (some cs) = some (c ∷ cs)

-- The end of a round whose attempt failed but may be tried again, at the answer of `next`.
abbrev pub waited :
    World
    → PayloadKind
    → Bool
    → (ℤ → Backoff → Option (List Count))
    → Option (ℤ × Backoff)
    → Option (List Count)
waited w payload stopped again none = some (forward_dropped payload retry_exhausted ∷ [])
waited w payload stopped again (some (wait, b)) =
    if stopped
    then some (final_delivery_attempt w payload)
    else counted (forward_retries payload) (again wait b)

unfoldable pub deliver_from : ℕ → World → PayloadKind → (k now : ℕ) → Backoff → Option (List Count)
deliver_from zero w payload k now b = none
deliver_from (suc fuel) w payload k now b =
    let r = w.round k in
    let t = now + r.took in
    let a = attempt w.parse_time t r.reply in
    let again = λ (wait : ℤ) (b' : Backoff).
      deliver_from fuel w payload (k + 1) (t + slept wait + r.late) b' in
    let retried = waited w payload r.stopped_in_wait again (next b a.retry_after t r.rand) in
    if not a.failed
    then some (forward_delivered payload ∷ [])
    else if not a.retryable
    then some (forward_dropped payload permanent ∷ [])
    else if r.stopping
    then some (final_delivery_attempt w payload)
    else retried

abbrev pub first_backoff : Config → ℕ → Backoff
first_backoff cfg now =
    new_backoff (size cfg.retry_initial_interval) (size cfg.retry_max_interval)
      (size cfg.retry_max_elapsed_time) now

unfoldable pub deliver : ℕ → World → Config → QueuedItem → ℕ → Option (List Count)
unfolding new_backoff
deliver fuel w cfg item now =
    deliver_from fuel w (payload_label item.path) 0 now (first_backoff cfg now)
