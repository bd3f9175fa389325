-- ===== src/Metrics/Registry.antt =====
-- metrics/metrics.go: the registry after counters are registered in another order, and its text.
pub mod Shown
use mathlib.Core.List.{Permᴰ}
use yukon_collector.Base.{
  ◌≡◌, Bool, ◌||◌, ◌⊎◌, refl, sym, ap, ◌∙◌, inl, inr, Bool-cases, true, false, Option, none, some,
  List, [], ◌∷◌, ◌++◌, Bytes, bytes_eq, bytes_eq_sound, bytes_eq_refl, bytes_eq_sym, if◌then◌else◌,
  arith,
}
use yukon_collector.Text.Order.{le_bytes, insert_sorted, sort}
use yukon_collector.Text.Order.Sorting.{le_total, le_antisymm, le_trans}
use yukon_collector.Metrics.Series.{Counter, is_registered, register}
use yukon_collector.Metrics.Exposition.{by_name, render_each, render_all}

-- The calls of `NewCounter`, one after the other; `none` once one of them panics.
abbrev pub each_registered :
    (List Counter → Option (List Counter)) → Option (List Counter) → Option (List Counter)
each_registered f none = none
each_registered f (some registry) = f registry

unfoldable pub register_all : List Counter → List Counter → Option (List Counter)
register_all [] registry = some registry
register_all (c ∷ cs) registry = each_registered (register_all cs) (register c registry)

apart :
    (a b : Counter)
    → bytes_eq a.name b.name ≡ false
    → le_bytes a.name b.name ≡ true
    → le_bytes b.name a.name ≡ true
    → ⊥
apart a b h p q = ground (arith, le_antisymm a.name b.name p q, bytes_eq_refl b.name)

insert_comm :
    (a b : Counter) (cs : List Counter)
    → bytes_eq a.name b.name ≡ false
    → insert_sorted by_name a (insert_sorted by_name b cs)
      ≡ insert_sorted by_name b (insert_sorted by_name a cs)
unfolding insert_sorted
insert_comm a b [] h = ground (arith, le_total a.name b.name, apart a b h)
insert_comm a b (c ∷ cs) h = ground (
  arith,
  le_total a.name b.name,
  le_total b.name a.name,
  apart a b h,
  le_trans a.name b.name c.name,
  le_trans b.name a.name c.name,
  insert_comm a b cs h,
)

sort-append :
    (c : Counter) (cs : List Counter)
    → is_registered c.name cs ≡ false
    → sort by_name (cs ++ c ∷ []) ≡ insert_sorted by_name c (sort by_name cs)
unfolding sort is_registered
sort-append c [] h = refl
sort-append c (d ∷ cs) h = elim (Bool-cases (bytes_eq d.name c.name)) [
  | inl e ↦ absurd (ground arith)
  | inr e ↦
      ap (insert_sorted by_name d) (sort-append c cs (rw e at h))
      ∙ insert_comm d c (sort by_name cs) e
]

pub is_registered-append :
    (n : Bytes) (c : Counter) (cs : List Counter)
    → is_registered n (cs ++ c ∷ []) ≡ (if bytes_eq c.name n then true else is_registered n cs)
unfolding is_registered
is_registered-append n c [] = refl
is_registered-append n c (d ∷ cs) = ground (arith, is_registered-append n c cs)

-- The registries hold the same names, and are in the same order once they are sorted.
pub record SameNames (r s : List Counter) : Type 0 where
  pub names : (n : Bytes) → is_registered n r ≡ is_registered n s
  pub sorts : sort by_name r ≡ sort by_name s

same_push :
    (c : Counter) (r s : List Counter)
    → is_registered c.name r ≡ false
    → SameNames r s
    → SameNames (r ++ c ∷ []) (s ++ c ∷ [])
same_push c r s f h = record {
  names = λ n. rw (is_registered-append n c r, is_registered-append n c s, h.names n) refl;
  sorts =
      sort-append c r f
      ∙ ap (insert_sorted by_name c) h.sorts
      ∙ sym (sort-append c s (sym (h.names c.name) ∙ f));
}

same_swap :
    (a b : Counter) (r : List Counter)
    → is_registered a.name r ≡ false
    → is_registered b.name r ≡ false
    → bytes_eq a.name b.name ≡ false
    → SameNames ((r ++ a ∷ []) ++ b ∷ []) ((r ++ b ∷ []) ++ a ∷ [])
same_swap a b r f g e =
    let after_a : is_registered b.name (r ++ a ∷ []) ≡ false =
      rw (is_registered-append b.name a r, e) g in
    let after_b : is_registered a.name (r ++ b ∷ []) ≡ false =
      rw (is_registered-append a.name b r, bytes_eq_sym b.name a.name, e) f in
    record {
      names = λ n.
          rw
            (
              is_registered-append n b (r ++ a ∷ []),
              is_registered-append n a r,
              is_registered-append n a (r ++ b ∷ []),
              is_registered-append n b r,
            )
            (ground arith);
      sorts =
          sort-append b (r ++ a ∷ []) after_a
          ∙ ap (insert_sorted by_name b) (sort-append a r f)
          ∙ insert_comm b a (sort by_name r) (bytes_eq_sym b.name a.name ∙ e)
          ∙ sym (ap (insert_sorted by_name a) (sort-append b r g))
          ∙ sym (sort-append a (r ++ b ∷ []) after_b);
    }

-- Both panic, or neither and the registries are alike.
abbrev pub Agree : Option (List Counter) → Option (List Counter) → Type 0
Agree none none = Unit
Agree none (some s) = ⊥
Agree (some r) none = ⊥
Agree (some r) (some s) = SameNames r s

Agree-trans : (o p q : Option (List Counter)) → Agree o p → Agree p q → Agree o q
Agree-trans none none none h k = _
Agree-trans none none (some t) h k = k
Agree-trans none (some s) q h k = absurd h
Agree-trans (some r) none q h k = absurd h
Agree-trans (some r) (some s) none h k = k
Agree-trans (some r) (some s) (some t) h k = record {
  names = λ n. h.names n ∙ k.names n;
  sorts = h.sorts ∙ k.sorts;
}

Agree-refl : (o : Option (List Counter)) → Agree o o
Agree-refl none = _
Agree-refl (some r) = record { names = λ n. refl; sorts = refl }

register_all-same :
    (cs r s : List Counter) → SameNames r s → Agree (register_all cs r) (register_all cs s)
unfolding register_all register
register_all-same [] r s h = h
register_all-same (c ∷ cs) r s h = elim (Bool-cases (is_registered c.name r)) [
  | inl e ↦ rw (← h.names c.name, e) _
  | inr e ↦ rw (← h.names c.name, e) (register_all-same cs _ _ (same_push c r s e h))
]

Agree-none : (o p : Option (List Counter)) → o ≡ none → p ≡ none → Agree o p
Agree-none o p e f = rw (e, f) _

pub first_taken :
    (a : Counter) (cs r : List Counter)
    → is_registered a.name r ≡ true
    → register_all (a ∷ cs) r ≡ none
unfolding register_all register
first_taken a cs r e = rw e refl

second_taken :
    (a b : Counter) (cs r : List Counter)
    → is_registered b.name (r ++ a ∷ []) ≡ true
    → register_all (a ∷ b ∷ cs) r ≡ none
unfolding register_all register
second_taken a b cs r e = elim (Bool-cases (is_registered a.name r)) [
  | inl f ↦ rw f refl
  | inr f ↦ rw f (first_taken b cs (r ++ a ∷ []) e)
]

both_register :
    (a b : Counter) (r cs : List Counter)
    → Agree (register_all (a ∷ b ∷ cs) r) (register_all (b ∷ a ∷ cs) r)
unfolding register_all register
both_register a b r cs = elim (Bool-cases (is_registered a.name r)) [
  | inl e ↦
      Agree-none _ _ (first_taken a (b ∷ cs) r e)
        (second_taken b a cs r (rw (is_registered-append a.name b r) (ground arith)))
  | inr e ↦ elim (Bool-cases (is_registered b.name r)) [
    | inl f ↦
        Agree-none _ _ (second_taken a b cs r (rw (is_registered-append b.name a r) (ground arith)))
          (first_taken b (a ∷ cs) r f)
    | inr f ↦ elim (Bool-cases (bytes_eq a.name b.name)) [
      | inl g ↦
          Agree-none _ _ (second_taken a b cs r (rw (is_registered-append b.name a r, g) refl)) (
            second_taken b a cs r
              (rw (is_registered-append a.name b r, bytes_eq_sym b.name a.name, g) refl))
      | inr g ↦
          rw
            (
              e,
              f,
              is_registered-append b.name a r,
              is_registered-append a.name b r,
              bytes_eq_sym b.name a.name,
              g,
              e,
              f,
            )
            (register_all-same cs _ _ (same_swap a b r e f g))
    ]
  ]
]

pub register_all-perm :
    {cs ds : List Counter} (r : List Counter)
    → Permᴰ cs ds
    → Agree (register_all cs r) (register_all ds r)
unfolding register_all register
register_all-perm r Permᴰ.nil = Agree-refl (some r)
register_all-perm r (Permᴰ.cons {a} {b} {l₁} {l₂} e p) =
    rw e (elim (Bool-cases (is_registered b.name r)) [
      | inl f ↦ rw f _
      | inr f ↦ rw f (register_all-perm (r ++ b ∷ []) p)
    ])
register_all-perm r (Permᴰ.swap {a} {b} {l = l} e f) = rw (← e, ← f) (both_register a b r l)
register_all-perm r (Permᴰ.trans p q) =
    Agree-trans _ _ _ (register_all-perm r p) (register_all-perm r q)
