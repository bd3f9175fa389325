-- ===== src/RateLimit/Allow.antt =====
-- internal/ratelimit/limiter.go: `allow`, the client's bucket included. The operations of a
-- `rate.Limiter` are parameters: a new one of the limiter's rate and burst, `ReserveN` of one token
-- with its reservation, and the reservation's `OK`, `DelayFrom` and `CancelAt`.
use mathlib.Core.Path.{subst}
use yukon_collector.Base.{
  ℕ, ◌≡◌, refl, ap, sym, ◌∙◌, ◌<◌, length, All, All-mono, Bool, true, false, not, Option, none,
  some, List, [], ◌∷◌, Bytes, if◌then◌else◌, ℤ, pos, lt_int,
}
use yukon_collector.RateLimit.{Visitor, Element, Limiter, track}
use yukon_collector.RateLimit.Elements.{address_of, Apart, Distinct, values}
use yukon_collector.RateLimit.Invariant.{Inv}
use yukon_collector.RateLimit.Lru.{lru, lru_at, track_lem}

pub record Answer : Type 0 where
  pub allowed : Bool
  pub retry_after : ℤ

-- The visitor that was tracked last gets its bucket as it is now.
abbrev pub front_bucket : {B : Type 0} → B → List (Element B) → List (Element B)
front_bucket b [] = []
front_bucket b (e ∷ es) = record e { value = record e.value { bucket = b } } ∷ es

module _ {B R : Type 0} (new_bucket : B) (reserve_n : ℕ → B → B × R) (ok : R → Bool)
    (delay_from : R → ℕ → ℤ) (cancel_at : R → ℕ → B → B) where
  abbrev pub ask : ℕ → B → B × Answer
  ask now bucket =
      let (b, res) = reserve_n now bucket in
      if not (ok res)
      then (b, record { allowed = false; retry_after = pos 0 })
      else if lt_int (pos 0) (delay_from res now)
      then (cancel_at res now b, record { allowed = false; retry_after = delay_from res now })
      else (b, record { allowed = true; retry_after = pos 0 })

  abbrev ask_front : ℕ → Limiter B → List (Element B) → Option (Limiter B × Answer)
  ask_front now l [] = none
  ask_front now l (e ∷ es) =
      let (b, answer) = ask now e.value.bucket in
      some (record l { order = front_bucket b (e ∷ es) }, answer)

  abbrev asked : ℕ → Option (Limiter B) → Option (Limiter B × Answer)
  asked now none = none
  asked now (some l) = ask_front now l l.order

  unfoldable pub allow : Bytes → ℕ → Limiter B → Option (Limiter B × Answer)
  allow key now l = asked now (track key new_bucket now l)

  -- The spec on the list of visitors: ask the first one's bucket.
  abbrev pub ask_first : ℕ → List (Visitor B) → Option (List (Visitor B) × Answer)
  ask_first now [] = none
  ask_first now (v ∷ vs) =
      let (b, answer) = ask now v.bucket in some (record v { bucket = b } ∷ vs, answer)

  front_bucket-Inv :
      (b : B) (t : Limiter B) (e : Element B) (es : List (Element B))
      → t.order ≡ e ∷ es
      → Inv t
      → Inv (record t { order = front_bucket b (e ∷ es) })
  front_bucket-Inv b t e es h v =
      let (p, d) : Distinct (e ∷ es) = subst (λ xs. Distinct xs) h v.distinct in
      let (g, f) : All (λ x. x.address < t.allocated) (e ∷ es) =
        subst (λ xs. All (λ x. x.address < t.allocated) xs) h v.fresh in
      record {
        distinct = (
          All-mono (Apart e) _ (λ x q. record { keys = q.keys; addresses = q.addresses }) es p,
          d,
        );
        agree = λ k. v.agree k ∙ ap (address_of k) h;
        unique = v.unique;
        sizes = v.sizes ∙ ap length h;
        fresh = (g, f);
      }

  ask_front_lem :
      (now : ℕ) (t : Limiter B) (es : List (Element B)) (v : Visitor B) (vs : List (Visitor B))
      → t.order ≡ es
      → values es ≡ v ∷ vs
      → Inv t
      → (u : Limiter B) × (a : Answer) × (ask_front now t es ≡ some (u, a))
        × Inv u
        × (ask_first now (values es) ≡ some (values u.order, a))
        × (u.max_visitors ≡ t.max_visitors)
  ask_front_lem now t [] v vs h k i = absurd (cc k)
  ask_front_lem now t (e ∷ es) v vs h k i =
      (_, _, refl, front_bucket-Inv (ask now e.value.bucket).0 t e es h i, refl, refl)

  lru-cons :
      (cap : ℕ) (k : Bytes) (now : ℕ) (vs : List (Visitor B)) (o : Option (Visitor B))
      → (w : Visitor B) × (ws : List (Visitor B)) × (lru_at cap k new_bucket now vs o ≡ w ∷ ws)
  lru-cons cap k now vs none = (_, _, refl)
  lru-cons cap k now vs (some v) = (_, _, refl)

  -- A call of `allow` answers what the client's own bucket says, a new one for a client that is not
  -- tracked, and no other client's bucket changes: on the visitors, it is the call on a
  -- least-recently-used list of the capacity; and the map and the list still agree.
  pub allow_lem :
      (key : Bytes) (now : ℕ) (l : Limiter B)
      → Inv l
      → (t : Limiter B) × (a : Answer) × (allow key now l ≡ some (t, a))
        × Inv t
        × (ask_first now (lru l.max_visitors key new_bucket now (values l.order))
            ≡ some (values t.order, a))
        × (t.max_visitors ≡ l.max_visitors)
  unfolding allow
  allow_lem key now l v =
      let (t, e, i, c, m) = track_lem l key new_bucket now v in
      let (w, ws, d) = lru-cons l.max_visitors key now (values l.order) _ in
      let (u, a, f, j, g, n) = ask_front_lem now t t.order w ws refl (c ∙ d) i in
      (u, a, rw e f, j, ap (ask_first now) (sym c) ∙ g, n ∙ m)
