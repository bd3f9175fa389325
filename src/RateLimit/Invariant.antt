-- ===== src/RateLimit/Invariant.antt =====
-- The map and the list of the limiter agree.
use yukon_collector.Base.{
  ℕ, suc, ◌≡◌, ◌≢◌, ◌<◌, refl, ap, sym, ◌∙◌, Bool-cases, false, none, some, List, [], ◌∷◌, Bytes,
  bytes_eq, bytes_eq_sound, bytes_eq_sym, length, All, All-mono, inl, inr, arith,
}
use yukon_collector.RateLimit.{Visitor, Element, Limiter, lookup, delete, remove, push_front}
use yukon_collector.RateLimit.Elements.{
  address_of, Apart, Distinct, IsAt, address_of-IsAt, All-remove, Distinct-remove,
}

lookup-delete_same : (k : Bytes) (m : List (Bytes × ℕ)) → lookup k (delete k m) ≡ none
unfolding lookup delete
lookup-delete_same k [] = refl
lookup-delete_same k ((q, a) ∷ m) = ground (arith, lookup-delete_same k m)

lookup-delete_other :
    (k q : Bytes) (m : List (Bytes × ℕ)) → bytes_eq k q ≡ false → lookup q (delete k m) ≡ lookup q m
unfolding lookup delete
lookup-delete_other k q [] h = refl
lookup-delete_other k q ((p, a) ∷ m) h = elim (Bool-cases (bytes_eq p k)) [
  | inl e ↦
      let n : bytes_eq p q ≡ false = ap (λ s. bytes_eq s q) (bytes_eq_sound p k e) ∙ h in
      rw (e, n) (lookup-delete_other k q m h)
  | inr e ↦ ground (arith, lookup-delete_other k q m h)
]

-- No two entries of the map have one key.
abbrev Unique : List (Bytes × ℕ) → Type 0
Unique [] = Unit
Unique ((q, a) ∷ m) = (lookup q m ≡ none) × Unique m

Unique-delete : (k : Bytes) (m : List (Bytes × ℕ)) → Unique m → Unique (delete k m)
unfolding delete
Unique-delete k [] h = h
Unique-delete k ((q, a) ∷ m) (n, h) = elim (Bool-cases (bytes_eq q k)) [
  | inl e ↦ rw e (Unique-delete k m h)
  | inr e ↦ rw e (lookup-delete_other k q m (bytes_eq_sym k q ∙ e) ∙ n, Unique-delete k m h)
]

delete-none : (k : Bytes) (m : List (Bytes × ℕ)) → lookup k m ≡ none → delete k m ≡ m
unfolding lookup delete
delete-none k [] h = refl
delete-none k ((q, a) ∷ m) h = ground (arith, delete-none k m)

length-delete :
    (k : Bytes) (a : ℕ) (m : List (Bytes × ℕ))
    → Unique m
    → lookup k m ≡ some a
    → suc (length (delete k m)) ≡ length m
unfolding lookup delete
length-delete k a [] u h = absurd (cc h)
length-delete k a ((q, b) ∷ m) (n, u) h = elim (Bool-cases (bytes_eq q k)) [
  | inl e ↦
      let gone : delete k m ≡ m =
        delete-none k m (ap (λ s. lookup s m) (sym (bytes_eq_sound q k e)) ∙ n) in
      rw (e, gone) refl
  | inr e ↦ ground (arith, length-delete k a m u)
]

module _ {B : Type 0} where
  -- The map has one entry for each element, under its visitor's key; no two elements have a key or
  -- an address in common; and addresses yet to be given are not in use.
  pub record Inv (l : Limiter B) : Type 0 where
    pub distinct : Distinct l.order
    pub agree : (k : Bytes) → lookup k l.visitors ≡ address_of k l.order
    pub unique : Unique l.visitors
    pub sizes : length l.visitors ≡ length l.order
    pub fresh : All (λ e. e.address < l.allocated) l.order

  -- Removing an element from both keeps them in agreement.
  pub Inv-removed :
      (l : Limiter B) (k : Bytes) (a : ℕ)
      → Inv l
      → address_of k l.order ≡ some a
      → Inv (record l { visitors = delete k l.visitors; order = remove a l.order })
  Inv-removed l k a v h =
      let p = address_of-IsAt k a l.order v.distinct h in
      record {
        distinct = Distinct-remove a l.order v.distinct;
        agree = λ q. elim (Bool-cases (bytes_eq k q)) [
          | inl e ↦ rw (← bytes_eq_sound k q e) (lookup-delete_same k l.visitors ∙ sym p.gone)
          | inr e ↦ lookup-delete_other k q l.visitors e ∙ v.agree q ∙ sym (p.others q e)
        ];
        unique = Unique-delete k l.visitors v.unique;
        sizes =
            omega
              (arith, length-delete k a l.visitors v.unique (v.agree k ∙ h), p.shorter, v.sizes);
        fresh = All-remove _ a l.order v.fresh;
      }

  off_key :
      (x : Element B) (es : List (Element B))
      → address_of x.value.key es ≡ none
      → All (λ e. e.address ≢ x.address) es
      → All (Apart x) es
  off_key x [] h f = _
  off_key x (e ∷ es) h (g, f) = elim (Bool-cases (bytes_eq e.value.key x.value.key)) [
    | inl q ↦ absurd (ground arith)
    | inr q ↦ (
      record { keys = bytes_eq_sym x.value.key e.value.key ∙ q; addresses = λ r. g (sym r) },
      off_key x es (ground arith) f,
    )
  ]

  pub Inv-pushed :
      (l : Limiter B) (w : Visitor B)
      → Inv l
      → address_of w.key l.order ≡ none
      → Inv (push_front w.key w l)
  unfolding lookup
  Inv-pushed l w v h =
      let free : lookup w.key l.visitors ≡ none = v.agree w.key ∙ h in
      rw (delete-none w.key l.visitors free) (record {
        distinct =
            (off_key _ l.order h (All-mono _ _ (λ e p. omega arith) l.order v.fresh), v.distinct);
        agree = λ q. ground (arith, v.agree q);
        unique = (free, v.unique);
        sizes = omega (arith, v.sizes);
        fresh = (omega arith, All-mono _ _ (λ e p. omega arith) l.order v.fresh);
      })

  in_use :
      (k : Bytes) (a n : ℕ) (es : List (Element B))
      → address_of k es ≡ some a
      → All (λ e. e.address < n) es
      → a < n
  in_use k a n [] h f = absurd (cc h)
  in_use k a n (e ∷ es) h (g, f) = elim (Bool-cases (bytes_eq e.value.key k)) [
    | inl q ↦ let at : e.address ≡ a = ground arith in omega arith
    | inr q ↦ in_use k a n es (ground arith) f
  ]

  -- The element that `found` moves to the front.
  abbrev pub touched : ℕ → ℕ → Visitor B → Element B
  touched a now w = record { address = a; value = record w { last_seen = now } }

  pub Inv-moved :
      (l : Limiter B) (k : Bytes) (a now : ℕ)
      → Inv l
      → address_of k l.order ≡ some a
      → (p : IsAt k a l.order)
      → Inv (record l { order = touched a now p.visitor ∷ remove a l.order })
  Inv-moved l k a now v h p = record {
    distinct = (
      off_key _ (remove a l.order) (ap (λ s. address_of s (remove a l.order)) p.key ∙ p.gone)
          p.away,
      Distinct-remove a l.order v.distinct,
    );
    agree = λ q. elim (Bool-cases (bytes_eq k q)) [
      | inl e ↦
          rw (p.key, e) (ap (λ s. lookup s l.visitors) (sym (bytes_eq_sound k q e)) ∙ v.agree k ∙ h)
      | inr e ↦ rw (p.key, e) (v.agree q ∙ sym (p.others q e))
    ];
    unique = v.unique;
    sizes = omega (arith, p.shorter, v.sizes);
    fresh = (in_use k a l.allocated l.order h v.fresh, All-remove _ a l.order v.fresh);
  }
