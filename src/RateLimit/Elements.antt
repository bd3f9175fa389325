-- ===== src/RateLimit/Elements.antt =====
-- The list of the elements: what removing one of them leaves.
use yukon_collector.Base.{
  ℕ, zero, suc, ◌≡◌, ◌≢◌, refl, ap, sym, ◌∙◌, Bool-cases, true, false, Option, none, some, List, [],
  ◌∷◌, ◌++◌, Bytes, bytes_eq, bytes_eq_sound, bytes_eq_refl, bytes_eq_sym, length, take, ◌≤◌, All,
  All-mono, ◌==◌, if◌then◌else◌, inl, inr, arith,
}
use yukon_collector.RateLimit.{Visitor, Element, at_address, remove, back}

module _ {B : Type 0} where
  -- The address of the first element with a key.
  abbrev pub address_of : Bytes → List (Element B) → Option ℕ
  address_of k [] = none
  address_of k (e ∷ es) = if bytes_eq e.value.key k then some e.address else address_of k es

  pub record Apart (d e : Element B) : Type 0 where
    pub keys : bytes_eq d.value.key e.value.key ≡ false
    pub addresses : d.address ≢ e.address

  -- No two elements have a key or an address in common.
  abbrev pub Distinct : List (Element B) → Type 0
  Distinct [] = Unit
  Distinct (e ∷ es) = All (Apart e) es × Distinct es

  abbrev pub values : List (Element B) → List (Visitor B)
  values [] = []
  values (e ∷ es) = e.value ∷ values es

  abbrev pub find_key : Bytes → List (Visitor B) → Option (Visitor B)
  find_key k [] = none
  find_key k (v ∷ vs) = if bytes_eq v.key k then some v else find_key k vs

  abbrev pub drop_key : Bytes → List (Visitor B) → List (Visitor B)
  drop_key k [] = []
  drop_key k (v ∷ vs) = let rest = drop_key k vs in if bytes_eq v.key k then vs else v ∷ rest

  Apart-address :
      (d : Element B) (es : List (Element B)) (k : Bytes) (a : ℕ)
      → All (Apart d) es
      → address_of k es ≡ some a
      → (d.address ≢ a) × (bytes_eq d.value.key k ≡ false)
  Apart-address d [] k a h e = absurd (cc e)
  Apart-address d (x ∷ es) k a (p, h) e = elim (Bool-cases (bytes_eq x.value.key k)) [
    | inl q ↦ (
      λ r. p.addresses (r ∙ ground arith),
      ap (bytes_eq d.value.key) (sym (bytes_eq_sound x.value.key k q)) ∙ p.keys,
    )
    | inr q ↦ Apart-address d es k a h (ground arith)
  ]

  absent :
      (x : Element B) (es : List (Element B)) → All (Apart x) es → address_of x.value.key es ≡ none
  absent x [] p = refl
  absent x (e ∷ es) (p, h) = rw (bytes_eq_sym e.value.key x.value.key, p.keys) (absent x es h)

  -- What is at an address that the list gives for a key.
  pub record IsAt (k : Bytes) (a : ℕ) (es : List (Element B)) : Type 0 where
    pub visitor : Visitor B
    pub read : at_address a es ≡ some visitor
    pub key : visitor.key ≡ k
    pub found : find_key k (values es) ≡ some visitor
    pub dropped : values (remove a es) ≡ drop_key k (values es)
    pub shorter : suc (length (remove a es)) ≡ length es
    pub others : (q : Bytes) → bytes_eq k q ≡ false → address_of q (remove a es) ≡ address_of q es
    pub gone : address_of k (remove a es) ≡ none
    pub away : All (λ e. e.address ≢ a) (remove a es)

  pub address_of-IsAt :
      (k : Bytes) (a : ℕ) (es : List (Element B))
      → Distinct es
      → address_of k es ≡ some a
      → IsAt k a es
  unfolding at_address remove
  address_of-IsAt k a [] h e = absurd (cc e)
  address_of-IsAt k a (x ∷ es) (p, h) e = elim (Bool-cases (bytes_eq x.value.key k)) [
    | inl q ↦
        let same : x.value.key ≡ k = bytes_eq_sound x.value.key k q in
        let at : x.address ≡ a = ground arith in
        let none_left : address_of k es ≡ none =
          ap (λ s. address_of s es) (sym same) ∙ absent x es p in
        record {
          visitor = x.value;
          read = ground arith;
          key = same;
          found = rw q refl;
          dropped = ground arith;
          shorter = ground arith;
          others = λ r n.
              let m : bytes_eq x.value.key r ≡ false = ap (λ s. bytes_eq s r) same ∙ n in
              ground arith;
          gone = ground arith;
          away =
              let here : (x.address == a) ≡ true = ground arith in
              rw here
                (All-mono (Apart x) (λ e. e.address ≢ a) (λ e p r. p.addresses (at ∙ sym r)) es p);
        }
    | inr q ↦
        let below = address_of-IsAt k a es h (ground arith) in
        let (off, _) = Apart-address x es k a p (ground arith) in
        record {
          visitor = below.visitor;
          read = ground (arith, below.read);
          key = below.key;
          found = rw q below.found;
          dropped = ground (arith, below.dropped);
          shorter = ground (arith, below.shorter);
          others = λ r n. ground (arith, below.others r n);
          gone = ground (arith, below.gone);
          away = let there : (x.address == a) ≡ false = ground arith in rw there (off, below.away);
        }
  ]

  pub All-remove :
      (P : Element B → Type 0) (a : ℕ) (es : List (Element B)) → All P es → All P (remove a es)
  unfolding remove
  All-remove P a [] h = h
  All-remove P a (e ∷ es) (p, h) = elim (Bool-cases (e.address == a)) [
    | inl q ↦ rw q h
    | inr q ↦ rw q (p, All-remove P a es h)
  ]

  pub Distinct-remove : (a : ℕ) (es : List (Element B)) → Distinct es → Distinct (remove a es)
  unfolding remove
  Distinct-remove a [] h = h
  Distinct-remove a (e ∷ es) (p, h) = elim (Bool-cases (e.address == a)) [
    | inl q ↦ rw q h
    | inr q ↦ rw q (All-remove (Apart e) a es p, Distinct-remove a es h)
  ]

  take_cons :
      (v : Visitor B) (n bound : ℕ) (vs ws : List (Visitor B))
      → ((m : ℕ) → suc m ≤ bound → take m vs ≡ take m ws)
      → n ≤ bound
      → take n (v ∷ vs) ≡ take n (v ∷ ws)
  take_cons v zero bound vs ws f h = refl
  take_cons v (suc m) bound vs ws f h = ap (λ us. v ∷ us) (f m h)

  -- The last element of a list that has one.
  pub record IsBack (es : List (Element B)) (e : Element B) : Type 1 where
    pub last : back es ≡ some e
    pub known : address_of e.value.key es ≡ some e.address
    pub kept : suc (length (remove e.address es)) ≡ length es
    pub first :
        (n : ℕ) → suc n ≤ length es → take n (values (remove e.address es)) ≡ take n (values es)
    pub all : (P : Element B → Type 0) → All P es → P e
    pub ends : values (remove e.address es) ++ e.value ∷ [] ≡ values es

  pub IsBack-IsBack :
      (x : Element B) (es : List (Element B))
      → Distinct (x ∷ es)
      → (e : Element B) × IsBack (x ∷ es) e
  unfolding back remove
  IsBack-IsBack x [] h = (
    x,
    record {
      last = refl;
      known = ground (arith, bytes_eq_refl x.value.key);
      kept = ground arith;
      first = λ n k. let z : n ≡ 0 = omega arith in rw z refl;
      all = λ P h. h.0;
      ends = ground arith;
    },
  )
  IsBack-IsBack x (d ∷ es) (p, h) =
      let (e, v) = IsBack-IsBack d es h in
      let off : Apart x e = v.all (Apart x) p in
      (
        e,
        record {
          last = v.last;
          known = ground (arith, off.keys, v.known);
          kept = ground (arith, off.addresses, v.kept);
          first = λ n k.
              let apart : (x.address == e.address) ≡ false = ground (arith, off.addresses) in
              rw apart (take_cons x.value n (length (d ∷ es)) _ _ v.first (omega arith));
          all = λ P h. v.all P h.1;
          ends = ground (arith, off.addresses, v.ends);
        },
      )

  pub IsBack-total :
      (es : List (Element B)) → Distinct es → 1 ≤ length es → (e : Element B) × IsBack es e
  IsBack-total [] h k = absurd (omega arith)
  IsBack-total (x ∷ es) h k = IsBack-IsBack x es h
