-- ===== src/RateLimit/Lru.antt =====
-- The limiter keeps the clients that were seen last.
use yukon_collector.Base.{
  ℕ, zero, suc, ◌-◌, ◌≡◌, ◌≤◌, refl, ap, sym, ◌∙◌, Bool-cases, Option-cases, Option, none, some,
  List, [], ◌∷◌, Bytes, length, take, ltb, leb, ◌&&◌, inl, inr, arith,
}
use yukon_collector.RateLimit.{
  Visitor, Element, Limiter, remove, without, make_room, push_front, track,
}
use yukon_collector.RateLimit.Elements.{
  address_of, values, find_key, drop_key, address_of-IsAt, IsBack-total,
}
use yukon_collector.RateLimit.Invariant.{Inv, Inv-removed, Inv-pushed, Inv-moved, touched}

module _ {B : Type 0} where
  -- A list of visitors, the last seen first, that holds at most `cap`: what one request does to it.
  abbrev pub lru_at : ℕ → Bytes → B → ℕ → List (Visitor B) → Option (Visitor B) → List (Visitor B)
  lru_at cap k bucket now vs none =
      record { key = k; bucket = bucket; last_seen = now } ∷ take (cap - 1) vs
  lru_at cap k bucket now vs (some v) = record v { last_seen = now } ∷ drop_key k vs

  abbrev pub lru : ℕ → Bytes → B → ℕ → List (Visitor B) → List (Visitor B)
  lru cap k bucket now vs = lru_at cap k bucket now vs (find_key k vs)

  take_all : (n : ℕ) (es : List (Element B)) → length es ≤ n → take n (values es) ≡ values es
  take_all zero [] h = refl
  take_all zero (e ∷ es) h = absurd (omega arith)
  take_all (suc n) [] h = refl
  take_all (suc n) (e ∷ es) h = ap (λ vs. e.value ∷ vs) (take_all n es (omega arith))

  -- What `make_room` leaves.
  pub record HasRoom (l r : Limiter B) : Type 0 where
    pub inv : Inv r
    pub newest : values r.order ≡ take (l.max_visitors - 1) (values l.order)
    pub cap : r.max_visitors ≡ l.max_visitors

  make_room-HasRoom :
      (n : ℕ) (l : Limiter B) → Inv l → length l.order ≤ n → HasRoom l (make_room n l)
  unfolding make_room
  make_room-HasRoom zero l v h = record {
    inv = v;
    newest = sym (take_all _ l.order (omega arith));
    cap = refl;
  }
  make_room-HasRoom (suc n) l v h =
      elim (Bool-cases (leb l.max_visitors (length l.visitors) && ltb 0 (length l.order))) [
        | inl q ↦
            let some_left : 1 ≤ length l.order = ground arith in
            let (e, b) = IsBack-total l.order v.distinct some_left in
            let r =
              make_room-HasRoom n (without l (some e))
                (Inv-removed l e.value.key e.address v b.known) (omega (arith, b.kept)) in
            rw (q, b.last)
              (record {
                inv = r.inv;
                newest = r.newest ∙ b.first (l.max_visitors - 1) (ground (arith, v.sizes));
                cap = r.cap;
              })
        | inr q ↦ rw q (record {
          inv = v;
          newest = sym (take_all _ l.order (ground (arith, v.sizes)));
          cap = refl;
        })
      ]

  unseen :
      (k : Bytes) (es : List (Element B)) → address_of k es ≡ none → find_key k (values es) ≡ none
  unseen k [] h = refl
  unseen k (e ∷ es) h = ground (arith, unseen k es)

  unseen_back :
      (k : Bytes) (es : List (Element B)) → find_key k (values es) ≡ none → address_of k es ≡ none
  unseen_back k [] h = refl
  unseen_back k (e ∷ es) h = ground (arith, unseen_back k es)

  find_key-take :
      (k : Bytes) (n : ℕ) (vs : List (Visitor B))
      → find_key k vs ≡ none
      → find_key k (take n vs) ≡ none
  find_key-take k zero vs h = refl
  find_key-take k (suc n) [] h = refl
  find_key-take k (suc n) (v ∷ vs) h = ground (arith, find_key-take k n vs)

  -- A request's client is tracked without fail: the map and the list still agree, and the visitors
  -- are those that a least-recently-used list of the capacity holds: the client first, with its
  -- own bucket if it was there and a new one otherwise, and then the others as they were, of which a
  -- new client leaves only the newest that fit.
  pub track_lem :
      (l : Limiter B) (k : Bytes) (bucket : B) (now : ℕ)
      → Inv l
      → (t : Limiter B) × (track k bucket now l ≡ some t)
        × Inv t
        × (values t.order ≡ lru l.max_visitors k bucket now (values l.order))
        × (t.max_visitors ≡ l.max_visitors)
  unfolding track
  track_lem l k bucket now v = elim (Option-cases (address_of k l.order)) [
    | inl e ↦
        let w : Visitor B = record { key = k; bucket = bucket; last_seen = now } in
        let r = make_room-HasRoom (length l.order) l v (omega arith) in
        let new : find_key k (values l.order) ≡ none = unseen k l.order e in
        let room = make_room (length l.order) l in
        let free : address_of k room.order ≡ none =
          unseen_back k room.order (ap (find_key k) r.newest ∙ find_key-take k _ _ new) in
        (
          push_front k w room,
          rw (v.agree k, e) refl,
          Inv-pushed room w r.inv free,
          rw (new, ← r.newest) refl,
          r.cap,
        )
    | inr (a, e) ↦
        let p = address_of-IsAt k a l.order v.distinct e in
        (
          record l { order = touched a now p.visitor ∷ remove a l.order },
          rw (v.agree k, e, p.read) refl,
          Inv-moved l k a now v e p,
          rw (p.found, ← p.dropped) refl,
          refl,
        )
  ]
