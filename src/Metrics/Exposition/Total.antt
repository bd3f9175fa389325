-- ===== src/Metrics/Exposition/Total.antt =====
-- metrics/metrics.go: the text of a counter after its calls.
use mathlib.Core.List.{Permᴰ}
use mathlib.Core.Path.{fun_ext, subst}
use yukon_collector.Base.{
  ℕ, suc, ◌+◌, ◌≤◌, ◌≡◌, refl, sym, ap, ◌∙◌, inl, inr, Bool-cases, Option, none, some, List, [],
  ◌∷◌, ◌++◌, Bytes, codes, int64, ◌%◌, ◌^◌, bytes_eq, bytes_eq_refl, length, All, All-mono, arith,
}
use yukon_collector.Text.Parts.{split, join}
use yukon_collector.Text.Parts.RoundTrip.{length-onto_first, length-split}
use yukon_collector.Text.Order.{le_bytes, insert_sorted, sort}
use yukon_collector.Metrics.Series.{
  Series, Counter, read, get, count_or, key, no_series, new_counter,
}
use yukon_collector.Metrics.Series.Runs.{
  Addition, after_call, add_all, run_calls, Fits, run_calls-add_all, read-add,
}
use yukon_collector.Metrics.Series.Orders.{with_key, keys_of-after_call, add_all-perm}
use yukon_collector.Metrics.Exposition.{
  keys_of, preamble, in_front, braced, with_count, append_some, decimal, label_pairs, label_set,
  sample, samples, render,
}

-- No panic.
abbrev pub Returns : {A : Type 0} → Option A → Type 0
Returns {A} o = (a : A) × (o ≡ some a)

in_front-Returns : (s : Bytes) (o : Option Bytes) → Returns o → Returns (in_front s o)
in_front-Returns s o (t, e) = (s ++ t, rw e refl)

braced-Returns : (o : Option Bytes) → Returns o → Returns (braced o)
braced-Returns o (t, e) = (b'{' ∷ t ++ codes "}", rw e refl)

with_count-Returns :
    (o : Option Bytes) (v : Option ℕ) → Returns o → Returns v → Returns (with_count o v)
with_count-Returns o v (t, e) (n, f) = (t ++ b' ' ∷ decimal (int64 n) ++ codes "\n", rw (e, f) refl)

pub append_some-Returns : (o u : Option Bytes) → Returns o → Returns u → Returns (append_some o u)
append_some-Returns o u (t, e) (w, f) = (t ++ w, rw (e, f) refl)

label_pairs-Returns :
    (i : ℕ) (labels values : List Bytes)
    → length labels ≤ length values
    → Returns (label_pairs i labels values)
unfolding label_pairs
label_pairs-Returns i [] values h = ([], refl)
label_pairs-Returns i (l ∷ ls) [] h = absurd (omega arith)
label_pairs-Returns i (l ∷ ls) (v ∷ vs) h =
    in_front-Returns _ _ (label_pairs-Returns (suc i) ls vs (omega arith))

label_set-Returns :
    (labels values : List Bytes) → length labels ≤ length values → Returns (label_set labels values)
label_set-Returns [] values h = ([], refl)
label_set-Returns (l ∷ ls) values h = braced-Returns _ (label_pairs-Returns 0 (l ∷ ls) values h)

-- A key that the map holds, with a value for each label.
abbrev IsShown : List Bytes → Series → Bytes → Type 0
IsShown labels m k = Returns (read k m) × (length labels ≤ length (split 0 k))

samples-Returns :
    (name : Bytes) (labels : List Bytes) (m : Series) (ks : List Bytes)
    → All (IsShown labels m) ks
    → Returns (samples name labels (λ k. read k m) ks)
unfolding samples sample
samples-Returns name labels m [] h = ([], refl)
samples-Returns name labels m (k ∷ ks) ((r, l), h) =
    append_some-Returns _ _
      (in_front-Returns name _ (with_count-Returns _ _ (label_set-Returns labels (split 0 k) l) r))
      (samples-Returns name labels m ks h)

All-insert_sorted :
    (P : Bytes → Type 0) (k : Bytes) (ks : List Bytes)
    → P k
    → All P ks
    → All P (insert_sorted le_bytes k ks)
unfolding insert_sorted
All-insert_sorted P k [] h hs = (h, hs)
All-insert_sorted P k (j ∷ ks) h (g, hs) = elim (Bool-cases (le_bytes k j)) [
  | inl e ↦ rw e (h, (g, hs))
  | inr e ↦ rw e (g, All-insert_sorted P k ks h hs)
]

All-sort : (P : Bytes → Type 0) (ks : List Bytes) → All P ks → All P (sort le_bytes ks)
unfolding sort
All-sort P [] h = h
All-sort P (k ∷ ks) (h, hs) = All-insert_sorted P k _ h (All-sort P ks hs)

length-split-append :
    (sep : ℕ) (p s : Bytes) → suc (length (split sep s)) ≤ length (split sep (p ++ sep ∷ s))
unfolding split
length-split-append sep [] s = ground arith
length-split-append sep (c ∷ p) s =
    ground (arith, length-split-append sep p s, length-onto_first c (split sep (p ++ sep ∷ s)))

length-split-join : (sep : ℕ) (vs : List Bytes) → length vs ≤ length (split sep (join sep vs))
unfolding join
length-split-join sep [] = omega arith
length-split-join sep (v ∷ []) = length-split sep v
length-split-join sep (v ∷ w ∷ vs) =
    omega (arith, length-split-append sep v (join sep (w ∷ vs)), length-split-join sep (w ∷ vs))

shown_with :
    (k : Bytes) (v : Option ℕ) (P : Bytes → Type 0) (ks : List Bytes)
    → P k
    → All P ks
    → All P (with_key k v ks)
shown_with k none P ks h hs = (h, hs)
shown_with k (some v) P ks h hs = hs

still_read :
    (a : Addition) (m : Series) (k : Bytes) → Returns (read k m) → Returns (read k (after_call a m))
still_read a m k (v, h) = elim (Bool-cases (bytes_eq (key a.values) k)) [
  | inl e ↦ (
    (count_or (read (key a.values) m) + a.amount) % 2 ^ 64,
    rw (read-add k (key a.values) a.amount m, e) refl,
  )
  | inr e ↦ (v, rw (read-add k (key a.values) a.amount m, e) h)
]

IsShown-after :
    (labels : List Bytes) (a : Addition) (m : Series)
    → Fits labels a
    → All (IsShown labels m) (keys_of m)
    → All (IsShown labels (after_call a m)) (keys_of (after_call a m))
IsShown-after labels a m f h =
    let k = key a.values in
    let old : All (IsShown labels (after_call a m)) (keys_of m) =
      All-mono _ _ (λ j (r, l). (still_read a m j r, l)) (keys_of m) h in
    let own : IsShown labels (after_call a m) k = (
      (
        (count_or (read k m) + a.amount) % 2 ^ 64,
        rw (read-add k k a.amount m, bytes_eq_refl k) refl,
      ),
      ground (arith, length-split-join 0 a.values),
    ) in
    rw (keys_of-after_call a m)
      (shown_with k (read k m) (IsShown labels (after_call a m)) (keys_of m) own old)

IsShown-all :
    (labels : List Bytes) (calls : List Addition) (m : Series)
    → All (Fits labels) calls
    → All (IsShown labels m) (keys_of m)
    → All (IsShown labels (add_all calls m)) (keys_of (add_all calls m))
unfolding add_all
IsShown-all labels [] m f h = h
IsShown-all labels (a ∷ calls) m (f, fs) h =
    IsShown-all labels calls (after_call a m) fs (IsShown-after labels a m f h)

IsShown-new :
    (labels : List Bytes) → All (IsShown labels (no_series labels)) (keys_of (no_series labels))
unfolding get read bytes_eq join
IsShown-new [] = (((0, refl), omega arith), _)
IsShown-new (l ∷ ls) = _

All-perm : {xs ys : List Addition} (P : Addition → Type 0) → Permᴰ xs ys → All P xs → All P ys
All-perm P Permᴰ.nil h = h
All-perm P (Permᴰ.cons e p) (h, hs) = (subst P e h, All-perm P p hs)
All-perm P (Permᴰ.swap e f) (h, (g, hs)) = (subst P f g, (subst P e h, hs))
All-perm P (Permᴰ.trans p q) h = All-perm P q (All-perm P p h)

-- However a program adds to a new counter, with one value for each label, no call panics and the
-- counter is shown without a panic; and the same calls in any other order show the same text.
pub render-perm :
    (name help : Bytes) (labels : List Bytes) (calls others : List Addition)
    → All (Fits labels) calls
    → Permᴰ calls others
    → (c d : Counter) × (text : Bytes) × (run_calls calls (new_counter name help labels) ≡ some c)
      × (run_calls others (new_counter name help labels) ≡ some d)
      × (render c ≡ some text)
      × (render d ≡ some text)
unfolding new_counter render
render-perm name help labels calls others h p =
    let c = new_counter name help labels in
    let m = add_all calls (no_series labels) in
    let n = add_all others (no_series labels) in
    let same = add_all-perm (no_series labels) p in
    let shown = All-sort _ _ (IsShown-all labels calls _ h (IsShown-new labels)) in
    let (t, e) = in_front-Returns (preamble c) _ (samples-Returns name labels m _ shown) in
    let loads = fun_ext same.reads in
    let text = λ (load : Bytes → Option ℕ) (ks : List Bytes).
      in_front (preamble c) (samples name labels load ks) in
    (
      record c { series = m },
      record c { series = n },
      t,
      run_calls-add_all calls c h,
      run_calls-add_all others c (All-perm (Fits labels) p h),
      e,
      ap (λ load. text load (sort le_bytes (keys_of n))) (sym loads)
          ∙ ap (text (λ k. read k m)) (sym same.sorts)
          ∙ e,
    )
