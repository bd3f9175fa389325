-- ===== src/RateLimit/Fits.antt =====
-- What a request and a tick make of visitors that are in order.
use yukon_collector.Base.{
  ℕ, zero, suc, ◌-◌, ◌≡◌, ◌≤◌, refl, Bool-cases, Option, none, some, List, [], ◌∷◌, Bytes, bytes_eq,
  length, take, leb, inl, inr, arith,
}
use yukon_collector.RateLimit.{Visitor, Element}
use yukon_collector.RateLimit.Elements.{values, find_key, drop_key}
use yukon_collector.RateLimit.Lru.{lru_at}
use yukon_collector.RateLimit.Stale.{Ordered, recent}

module _ {B : Type 0} where
  pub length-values : (es : List (Element B)) → length (values es) ≡ length es
  length-values [] = refl
  length-values (e ∷ es) = omega (arith, length-values es)

  pub Ordered-mono : (t now : ℕ) (vs : List (Visitor B)) → t ≤ now → Ordered t vs → Ordered now vs
  Ordered-mono t now [] h o = _
  Ordered-mono t now (v ∷ vs) h (k, o) = (omega arith, o)

  Ordered-take : (t n : ℕ) (vs : List (Visitor B)) → Ordered t vs → Ordered t (take n vs)
  Ordered-take t zero vs o = _
  Ordered-take t (suc n) [] o = _
  Ordered-take t (suc n) (v ∷ vs) (k, o) = (k, Ordered-take v.last_seen n vs o)

  length-take_le : (n : ℕ) (vs : List (Visitor B)) → length (take n vs) ≤ n
  length-take_le zero vs = omega arith
  length-take_le (suc n) [] = omega arith
  length-take_le (suc n) (v ∷ vs) = omega (arith, length-take_le n vs)

  Ordered-drop_key :
      (t : ℕ) (k : Bytes) (vs : List (Visitor B)) → Ordered t vs → Ordered t (drop_key k vs)
  Ordered-drop_key t k [] o = _
  Ordered-drop_key t k (v ∷ vs) (h, o) = elim (Bool-cases (bytes_eq v.key k)) [
    | inl q ↦ rw q (Ordered-mono v.last_seen t vs h o)
    | inr q ↦ rw q (h, Ordered-drop_key v.last_seen k vs o)
  ]

  length-drop_key :
      (k : Bytes) (vs : List (Visitor B)) (w : Visitor B)
      → find_key k vs ≡ some w
      → suc (length (drop_key k vs)) ≡ length vs
  length-drop_key k [] w h = absurd (cc h)
  length-drop_key k (v ∷ vs) w h = ground (arith, length-drop_key k vs w)

  pub Ordered-recent :
      (t now limit : ℕ) (vs : List (Visitor B)) → Ordered t vs → Ordered t (recent now limit vs)
  Ordered-recent t now limit [] o = _
  Ordered-recent t now limit (v ∷ vs) (h, o) = elim (Bool-cases (leb (now - v.last_seen) limit)) [
    | inl q ↦ rw q (h, Ordered-recent v.last_seen now limit vs o)
    | inr q ↦ rw q (Ordered-mono v.last_seen t _ h (Ordered-recent v.last_seen now limit vs o))
  ]

  pub length-recent :
      (now limit : ℕ) (vs : List (Visitor B)) → length (recent now limit vs) ≤ length vs
  length-recent now limit [] = omega arith
  length-recent now limit (v ∷ vs) = ground (arith, length-recent now limit vs)

  -- What one request makes of visitors in order, and no more of them than fit.
  pub record Fits (cap now : ℕ) (vs : List (Visitor B)) : Type 0 where
    pub ordered : Ordered now vs
    pub bounded : length vs ≤ cap

  pub lru-Fits :
      (cap t now : ℕ) (k : Bytes) (bucket : B) (vs : List (Visitor B))
      → 1 ≤ cap
      → t ≤ now
      → Ordered t vs
      → length vs ≤ cap
      → (o : Option (Visitor B)) → find_key k vs ≡ o
      → Fits cap now (lru_at cap k bucket now vs o)
  lru-Fits cap t now k bucket vs c h o b none e = record {
    ordered = (omega arith, Ordered-mono t now _ h (Ordered-take t (cap - 1) vs o));
    bounded = omega (arith, length-take_le (cap - 1) vs);
  }
  lru-Fits cap t now k bucket vs c h o b (some v) e = record {
    ordered = (omega arith, Ordered-mono t now _ h (Ordered-drop_key t k vs o));
    bounded = omega (arith, length-drop_key k vs v e);
  }
