-- ===== src/Forward/Deliver/Outcome.antt =====
-- A delivery ends in exactly one outcome, counted after its retries.
use yukon_collector.Base.{
  ℕ, zero, suc, ◌+◌, ◌≡◌, ◌≢◌, ◌⊎◌, inl, inr, refl, not, Bool, true, false, Option, none, some,
  List, [], ◌∷◌, Bool-cases, if◌then◌else◌, ℤ,
}
use yukon_collector.Metrics.Counters.{
  PayloadKind, Count, DropReason, forward_delivered, forward_dropped, forward_retries, marshal,
  shutdown_deadline, shutdown_attempt_failed, permanent, retry_exhausted,
}
use yukon_collector.Forward.Backoff.{Backoff, next}
use yukon_collector.Forward.Attempt.{attempt}
use yukon_collector.Forward.Deliver.{
  World, final_delivery_attempt, slept, waited, counted, deliver_from,
}

some-inj {ℓ} : {A : Type ℓ} {a b : A} → some a ≡ some b → a ≡ b
some-inj e = cc

-- A counted delivery, or a counted drop for a reason of the delivery itself.
abbrev pub IsOutcome : PayloadKind → Count → Type 0
IsOutcome p c =
    (c ≡ forward_delivered p) ⊎ ((r : DropReason) × (r ≢ marshal) × (c ≡ forward_dropped p r))

-- Retries, and one outcome behind them.
abbrev pub Ends : PayloadKind → List Count → Type 0
Ends p [] = ⊥
Ends p (c ∷ []) = IsOutcome p c
Ends p (c ∷ d ∷ cs) = (c ≡ forward_retries p) × Ends p (d ∷ cs)

Ends-cons : (p : PayloadKind) (cs : List Count) → Ends p cs → Ends p (forward_retries p ∷ cs)
Ends-cons p [] e = absurd e
Ends-cons p (c ∷ cs) e = (refl, e)

IsOutcome-drop :
    (p : PayloadKind) (r : DropReason) → r ≢ marshal → IsOutcome p (forward_dropped p r)
IsOutcome-drop p r h = inr (r, h, refl)

pub final-Ends : (w : World) (p : PayloadKind) → Ends p (final_delivery_attempt w p)
unfolding final_delivery_attempt
final-Ends w p = elim (Bool-cases w.final.cancelled) [
  | inl e ↦ rw e (IsOutcome-drop p shutdown_deadline (λ q. cc))
  | inr e ↦ rw e (elim (Bool-cases (attempt w.parse_time w.final.now w.final.reply).failed) [
    | inl f ↦ rw f (IsOutcome-drop p shutdown_attempt_failed (λ q. cc))
    | inr f ↦ rw f (inl refl)
  ])
]

counted-Ends :
    (p : PayloadKind) (o : Option (List Count)) (cs : List Count)
    → ((ds : List Count) → o ≡ some ds → Ends p ds)
    → counted (forward_retries p) o ≡ some cs
    → Ends p cs
counted-Ends p none cs ih h = cc
counted-Ends p (some ds) cs ih h = rw (← some-inj h) (Ends-cons p ds (ih ds refl))

waited-Ends :
    (w : World) (p : PayloadKind) (stopped : Bool) (again : ℤ → Backoff → Option (List Count))
    (o : Option (ℤ × Backoff)) (cs : List Count)
    → ((wait : ℤ) (b : Backoff) (ds : List Count) → again wait b ≡ some ds → Ends p ds)
    → waited w p stopped again o ≡ some cs
    → Ends p cs
waited-Ends w p stopped again none cs ih h =
    rw (← some-inj h) (IsOutcome-drop p retry_exhausted (λ q. cc))
waited-Ends w p true again (some (wait, b)) cs ih h = rw (← some-inj h) (final-Ends w p)
waited-Ends w p false again (some (wait, b)) cs ih h =
    counted-Ends p (again wait b) cs (ih wait b) h

branch-Ends :
    (w : World) (p : PayloadKind) (failed retryable stopping : Bool) (retried : Option (List Count))
    (cs : List Count)
    → (retried ≡ some cs → Ends p cs)
    → (if not failed
        then some (forward_delivered p ∷ [])
        else if not retryable
        then some (forward_dropped p permanent ∷ [])
        else if stopping
        then some (final_delivery_attempt w p)
        else retried)
      ≡ some cs
    → Ends p cs
branch-Ends w p false retryable stopping retried cs ih h = rw (← some-inj h) (inl refl)
branch-Ends w p true false stopping retried cs ih h =
    rw (← some-inj h) (IsOutcome-drop p permanent (λ q. cc))
branch-Ends w p true true true retried cs ih h = rw (← some-inj h) (final-Ends w p)
branch-Ends w p true true false retried cs ih h = ih h

pub deliver_from-Ends :
    (fuel : ℕ) (w : World) (p : PayloadKind) (k now : ℕ) (b : Backoff) (cs : List Count)
    → deliver_from fuel w p k now b ≡ some cs
    → Ends p cs
unfolding deliver_from
deliver_from-Ends zero w p k now b cs h = cc
deliver_from-Ends (suc fuel) w p k now b cs h =
    let r = w.round k in
    let t = now + r.took in
    let a = attempt w.parse_time t r.reply in
    branch-Ends w p a.failed a.retryable r.stopping _ cs
      (waited-Ends w p r.stopped_in_wait _ (next b a.retry_after t r.rand) cs
        (λ wait b' ds. deliver_from-Ends fuel w p (k + 1) (t + slept wait + r.late) b' ds))
      h
