-- ===== src/RateLimit/Run.antt =====
-- The limiter over a run of the program: requests and ticks of the eviction loop, one after another.
use mathlib.Core.Path.{subst}
use yukon_collector.Base.{
  ℕ, zero, suc, ◌≡◌, ◌≤◌, refl, ap, ◌∙◌, Bool, Bool-cases, Option, none, some, List, [], ◌∷◌, Bytes,
  length, inl, inr, ℤ, arith,
}
use yukon_collector.RateLimit.{
  Visitor, Element, Limiter, lookup, new_limiter, default_max_visitors, without, back, is_stale,
  evict_stale,
}
use yukon_collector.RateLimit.Elements.{values}
use yukon_collector.RateLimit.Invariant.{Inv}
use yukon_collector.RateLimit.Allow.{Answer, allow, ask_first, allow_lem}
use yukon_collector.RateLimit.Fits.{
  Fits, length-values, Ordered-mono, Ordered-recent, length-recent, lru-Fits,
}
use yukon_collector.RateLimit.Stale.{Ordered, evict_stale_lem}

pub data Event : Type 0 where
  request : Bytes → Event
  tick : Event

-- Each event comes no earlier than the one before it.
abbrev pub Clocked : ℕ → List (ℕ × Event) → Type 0
Clocked t [] = Unit
Clocked t ((now, e) ∷ es) = (t ≤ now) × Clocked now es

module _ {B : Type 0} where
  -- What holds of the limiter at time `t`.
  pub record Kept (cap t : ℕ) (l : Limiter B) : Type 0 where
    pub inv : Inv l
    pub ordered : Ordered t (values l.order)
    pub bounded : length l.order ≤ l.max_visitors
    pub capacity : l.max_visitors ≡ cap
    pub some_room : 1 ≤ l.max_visitors

  without-cap :
      (l : Limiter B) (o : Option (Element B)) → (without l o).max_visitors ≡ l.max_visitors
  without-cap l none = refl
  without-cap l (some e) = refl

  evict_stale-cap :
      (n now : ℕ) (l : Limiter B) → (evict_stale n now l).max_visitors ≡ l.max_visitors
  unfolding evict_stale
  evict_stale-cap zero now l = refl
  evict_stale-cap (suc n) now l = elim (Bool-cases (is_stale now l.stale_after (back l.order))) [
    | inl q ↦ rw q (evict_stale-cap n now (without l (back l.order)) ∙ without-cap l (back l.order))
    | inr q ↦ rw q refl
  ]

  tick-Kept :
      (cap t now : ℕ) (l : Limiter B)
      → t ≤ now
      → Kept cap t l
      → Kept cap now (evict_stale (length l.order) now l)
  tick-Kept cap t now l h v =
      let (i, e) = evict_stale_lem (length l.order) now t l v.inv (omega arith) v.ordered in
      let r = evict_stale (length l.order) now l in
      let c : r.max_visitors ≡ l.max_visitors = evict_stale-cap (length l.order) now l in
      record {
        inv = i;
        ordered = rw e (Ordered-mono t now _ h (Ordered-recent t now l.stale_after _ v.ordered));
        bounded = omega (
          arith,
          length-values r.order,
          length-values l.order,
          ap length e,
          length-recent now l.stale_after (values l.order),
          c,
          v.bounded,
        );
        some_room = omega (arith, c, v.some_room);
        capacity = c ∙ v.capacity;
      }

  abbrev state_of : Option (Limiter B × Answer) → Option (Limiter B)
  state_of none = none
  state_of (some (l, a)) = some l

  abbrev visitors_of : Option (List (Visitor B) × Answer) → List (Visitor B)
  visitors_of none = []
  visitors_of (some (vs, a)) = vs

module _ {B R : Type 0} (new_bucket : B) (reserve_n : ℕ → B → B × R) (ok : R → Bool)
    (delay_from : R → ℕ → ℤ) (cancel_at : R → ℕ → B → B) where
  ask_first-Fits :
      (cap now : ℕ) (vs ws : List (Visitor B)) (a : Answer)
      → Fits cap now vs
      → ask_first new_bucket reserve_n ok delay_from cancel_at now vs ≡ some (ws, a)
      → Fits cap now ws
  ask_first-Fits cap now [] ws a f e = absurd (cc e)
  ask_first-Fits cap now (v ∷ vs) ws a f e =
      subst (λ us. Fits cap now us) (ap visitors_of e)
        (record { ordered = f.ordered; bounded = f.bounded })

  abbrev pub step : ℕ → Event → Limiter B → Option (Limiter B)
  step now (request k) l = state_of (allow new_bucket reserve_n ok delay_from cancel_at k now l)
  step now tick l = some (evict_stale (length l.order) now l)

  abbrev then_run : (Limiter B → Option (Limiter B)) → Option (Limiter B) → Option (Limiter B)
  then_run go none = none
  then_run go (some l) = go l

  unfoldable pub run : List (ℕ × Event) → Limiter B → Option (Limiter B)
  run [] l = some l
  run ((now, e) ∷ es) l = then_run (λ r. run es r) (step now e l)

  request-Kept :
      (cap t now : ℕ) (k : Bytes) (l : Limiter B)
      → t ≤ now
      → Kept cap t l
      → (r : Limiter B) × (step now (request k) l ≡ some r) × Kept cap now r
  request-Kept cap t now k l h v =
      let (r, a, e, i, f, m) =
        allow_lem new_bucket reserve_n ok delay_from cancel_at k now l v.inv in
      let fits =
        ask_first-Fits l.max_visitors now _ (values r.order) a
          (lru-Fits l.max_visitors t now k new_bucket (values l.order) v.some_room h v.ordered
            (omega (arith, length-values l.order, v.bounded)) _ refl)
          f in
      (
        r,
        rw e refl,
        record {
          inv = i;
          ordered = fits.ordered;
          bounded = omega (arith, fits.bounded, length-values r.order, m);
          some_room = omega (arith, m, v.some_room);
          capacity = m ∙ v.capacity;
        },
      )

  step-Kept :
      (cap t now : ℕ) (e : Event) (l : Limiter B)
      → t ≤ now
      → Kept cap t l
      → (r : Limiter B) × (step now e l ≡ some r) × Kept cap now r
  step-Kept cap t now (request k) l h v = request-Kept cap t now k l h v
  step-Kept cap t now tick l h v = (_, refl, tick-Kept cap t now l h v)

  run-Kept :
      (cap t : ℕ) (es : List (ℕ × Event)) (l : Limiter B)
      → Clocked t es
      → Kept cap t l
      → (r : Limiter B) × (last : ℕ) × (run es l ≡ some r) × Kept cap last r
  unfolding run
  run-Kept cap t [] l h v = (l, t, refl, v)
  run-Kept cap t ((now, e) ∷ es) l (h, hs) v =
      let (r, q, k) = step-Kept cap t now e l h v in
      let (s, last, p, w) = run-Kept cap now es r hs k in (s, last, rw q p, w)

  -- Whatever requests and ticks come, in the order of the clock: none of them fails, the map has one
  -- entry for each element of the list and no other, the clients are in the order in which they were
  -- last seen, and there are at most a hundred thousand of them.
  pub run_lem :
      (t : ℕ) (es : List (ℕ × Event))
      → Clocked t es
      → (r : Limiter B) × (last : ℕ) × (run es new_limiter ≡ some r)
        × Inv r
        × Ordered last (values r.order)
        × (length r.order ≤ default_max_visitors)
  unfolding lookup
  run_lem t es h =
      let (r, last, e, v) = run-Kept default_max_visitors t es new_limiter h (record {
        inv = record { distinct = _; agree = λ k. refl; unique = _; sizes = refl; fresh = _ };
        ordered = _;
        bounded = omega arith;
        capacity = refl;
        some_room = omega arith;
      }) in
      (r, last, e, v.inv, v.ordered, omega (arith, v.bounded, v.capacity))
