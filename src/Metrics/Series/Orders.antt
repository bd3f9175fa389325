-- ===== src/Metrics/Series/Orders.antt =====
-- metrics/metrics.go: the series after the same calls in another order.
use mathlib.Core.List.{Permᴰ}
use yukon_collector.Base.{
  ℕ, ◌+◌, ◌%◌, ◌^◌, ◌≡◌, refl, ap, ◌∙◌, inl, inr, Bool-cases, Option-cases, Option, none, some,
  List, [], ◌∷◌, Bytes, bytes_eq, bytes_eq_sound, bytes_eq_refl, bytes_eq_sym, if◌then◌else◌, arith,
}
use yukon_collector.Text.Order.{le_bytes, insert_sorted, sort}
use yukon_collector.Text.Order.Sorting.{insert_sorted_comm}
use yukon_collector.Metrics.Series.{Series, read, get, add_at, count_or, key}
use yukon_collector.Metrics.Series.Runs.{Addition, after_call, add_all, read-add}
use yukon_collector.Metrics.Exposition.{keys_of}

-- The maps hold the same counts under the same keys.
pub record SameSeries (m n : Series) : Type 0 where
  pub reads : (k : Bytes) → read k m ≡ read k n
  pub sorts : sort le_bytes (keys_of m) ≡ sort le_bytes (keys_of n)

keys_of-add_at : (k : Bytes) (v : ℕ) (m : Series) → keys_of (add_at k v m) ≡ keys_of m
unfolding add_at
keys_of-add_at k v [] = refl
keys_of-add_at k v ((q, w) ∷ m) = elim (Bool-cases (bytes_eq q k)) [
  | inl e ↦ rw e refl
  | inr e ↦ rw e (ap (λ ks. q ∷ ks) (keys_of-add_at k v m))
]

abbrev pub with_key : Bytes → Option ℕ → List Bytes → List Bytes
with_key k none ks = k ∷ ks
with_key k (some v) ks = ks

pub keys_of-after_call :
    (a : Addition) (m : Series)
    → keys_of (after_call a m) ≡ with_key (key a.values) (read (key a.values) m) (keys_of m)
unfolding get
keys_of-after_call a m = elim (Option-cases (read (key a.values) m)) [
  | inl e ↦ rw e (keys_of-add_at (key a.values) a.amount _)
  | inr (v, e) ↦ rw e (keys_of-add_at (key a.values) a.amount m)
]

-- The sorted keys after one call.
abbrev grown_keys : Bytes → Option ℕ → List Bytes → List Bytes
grown_keys k none ks = insert_sorted le_bytes k ks
grown_keys k (some v) ks = ks

grown_comm :
    (j i : Bytes) (v w : Option ℕ) (ks : List Bytes)
    → grown_keys j v (grown_keys i w ks) ≡ grown_keys i w (grown_keys j v ks)
grown_comm j i none none ks = insert_sorted_comm j i ks
grown_comm j i none (some w) ks = refl
grown_comm j i (some v) none ks = refl
grown_comm j i (some v) (some w) ks = refl

sorts-after_call :
    (a : Addition) (m : Series)
    → sort le_bytes (keys_of (after_call a m))
      ≡ grown_keys (key a.values) (read (key a.values) m) (sort le_bytes (keys_of m))
unfolding sort
sorts-after_call a m = elim (Option-cases (read (key a.values) m)) [
  | inl e ↦ rw e (ap (sort le_bytes) (rw e at (keys_of-after_call a m)))
  | inr (v, e) ↦ rw e (ap (sort le_bytes) (rw e at (keys_of-after_call a m)))
]

reads-after_call :
    (k : Bytes) (a : Addition) (m : Series)
    → read k (after_call a m) ≡ (
        if bytes_eq (key a.values) k
        then some ((count_or (read (key a.values) m) + a.amount) % 2 ^ 64)
        else read k m)
reads-after_call k a m = read-add k (key a.values) a.amount m

same_after :
    (a : Addition) (m n : Series) → SameSeries m n → SameSeries (after_call a m) (after_call a n)
same_after a m n h = record {
  reads = λ k.
      rw (reads-after_call k a m, reads-after_call k a n, h.reads k, h.reads (key a.values)) refl;
  sorts = rw (sorts-after_call a m, sorts-after_call a n, h.reads (key a.values), h.sorts) refl;
}

reads_swap :
    (k : Bytes) (a b : Addition) (m : Series)
    → read k (after_call b (after_call a m)) ≡ read k (after_call a (after_call b m))
reads_swap k a b m =
    let i = key a.values in
    let j = key b.values in
    rw
      (
        reads-after_call k b (after_call a m),
        reads-after_call k a (after_call b m),
        reads-after_call j a m,
        reads-after_call k a m,
        reads-after_call k b m,
        reads-after_call i b m,
      )
      (elim (Bool-cases (bytes_eq i k)) [
        | inl e ↦ elim (Bool-cases (bytes_eq j k)) [
          | inl f ↦
              let p = bytes_eq_sound i k e in
              let q = bytes_eq_sound j k f in rw (p, q, bytes_eq_refl k) (ap some (omega arith))
          | inr f ↦ rw (e, f, bytes_eq_sound i k e, f) refl
        ]
        | inr e ↦ elim (Bool-cases (bytes_eq j k)) [
          | inl f ↦ rw (e, f, bytes_eq_sound j k f, e) refl
          | inr f ↦ rw (e, f) refl
        ]
      ])

sorts_swap :
    (a b : Addition) (m : Series)
    → sort le_bytes (keys_of (after_call b (after_call a m)))
      ≡ sort le_bytes (keys_of (after_call a (after_call b m)))
sorts_swap a b m =
    let i = key a.values in
    let j = key b.values in
    rw
      (
        sorts-after_call b (after_call a m),
        sorts-after_call a (after_call b m),
        sorts-after_call a m,
        sorts-after_call b m,
        reads-after_call j a m,
        reads-after_call i b m,
      )
      (elim (Bool-cases (bytes_eq i j)) [
        | inl e ↦ rw (bytes_eq_sound i j e, bytes_eq_refl j) refl
        | inr e ↦
            rw (bytes_eq_sym j i, e)
              (grown_comm j i (read j m) (read i m) (sort le_bytes (keys_of m)))
      ])

same_refl : (m : Series) → SameSeries m m
same_refl m = record { reads = λ k. refl; sorts = refl }

same_trans : (m n o : Series) → SameSeries m n → SameSeries n o → SameSeries m o
same_trans m n o h k = record { reads = λ j. h.reads j ∙ k.reads j; sorts = h.sorts ∙ k.sorts }

add_all_same :
    (calls : List Addition) (m n : Series)
    → SameSeries m n
    → SameSeries (add_all calls m) (add_all calls n)
unfolding add_all
add_all_same [] m n h = h
add_all_same (a ∷ calls) m n h =
    add_all_same calls (after_call a m) (after_call a n) (same_after a m n h)

-- Calls in another order leave the same counts under the same keys.
pub add_all-perm :
    {calls others : List Addition} (m : Series)
    → Permᴰ calls others
    → SameSeries (add_all calls m) (add_all others m)
unfolding add_all
add_all-perm m Permᴰ.nil = same_refl m
add_all-perm m (Permᴰ.cons {a} {b} {l₁} {l₂} e p) = rw e (add_all-perm (after_call b m) p)
add_all-perm m (Permᴰ.swap {a} {b} {l = l} e f) =
    rw (← e, ← f)
      (add_all_same l _ _ (record { reads = λ k. reads_swap k a b m; sorts = sorts_swap a b m }))
add_all-perm m (Permᴰ.trans p q) = same_trans _ _ _ (add_all-perm m p) (add_all-perm m q)
