-- ===== src/Metrics/Series/Totals.antt =====
-- metrics/metrics.go: what the counts add up to.
use yukon_collector.Base.{
  All, All-mono, length, ◌==◌, ◌&&◌, Bool, int64, int64_mod, ℕ, ◌+◌, ◌%◌, ◌^◌, ◌<◌, ◌≡◌, refl, sym,
  ap, ◌∙◌, inl, inr, Bool-cases, true, false, some, List, [], ◌∷◌, Bytes, bytes_eq, bytes_eq_sound,
  bytes_eq_refl, if◌then◌else◌, arith,
}
use yukon_collector.Text.Parts.{split}
use yukon_collector.Text.Parts.RoundTrip.{IsPart, split-join}
use yukon_collector.Metrics.Series.Runs.{
  Addition, run_calls, add_all, after_call, run_calls-add_all, count-after_call,
}
use yukon_collector.Metrics.Series.{
  Series, Counter, read, get, count_or, key, no_series, new_counter, value,
}

-- What the calls add to one series.
abbrev total_at : Bytes → List Addition → ℕ
total_at k [] = 0
total_at k (a ∷ calls) = (if bytes_eq (key a.values) k then a.amount else 0) + total_at k calls

count-add_all :
    (k : Bytes) (calls : List Addition) (m : Series)
    → count_or (read k m) < 2 ^ 64
    → count_or (read k (add_all calls m)) ≡ (count_or (read k m) + total_at k calls) % 2 ^ 64
unfolding add_all
count-add_all k [] m h = omega arith
count-add_all k (a ∷ calls) m h =
    ground (arith, count-after_call k a m, count-add_all k calls (after_call a m))

-- Label values as a counter takes them: one for each label, and no NUL byte in any.
abbrev pub IsLabelled : List Bytes → List Bytes → Type 0
IsLabelled labels values = ((length values == length labels) ≡ true) × All (IsPart 0) values

abbrev pub same_values : List Bytes → List Bytes → Bool
same_values [] [] = true
same_values (v ∷ vs) (w ∷ ws) = bytes_eq v w && same_values vs ws
same_values [] (w ∷ ws) = false
same_values (v ∷ vs) [] = false

-- The sum of the amounts that were added under the same label values.
abbrev pub total : List Bytes → List Addition → ℕ
total values [] = 0
total values (a ∷ calls) =
    (if same_values a.values values then a.amount else 0) + total values calls

same_values_sound : (vs ws : List Bytes) → same_values vs ws ≡ true → vs ≡ ws
same_values_sound [] [] h = refl
same_values_sound [] (w ∷ ws) h = cc
same_values_sound (v ∷ vs) [] h = cc
same_values_sound (v ∷ vs) (w ∷ ws) h = ground (arith, bytes_eq_sound v w, same_values_sound vs ws)

same_values_refl : (vs : List Bytes) → same_values vs vs ≡ true
same_values_refl [] = refl
same_values_refl (v ∷ vs) = rw (bytes_eq_refl v) (same_values_refl vs)

-- Equal keys come of equal label values.
key_inj :
    (labels vs ws : List Bytes)
    → IsLabelled labels vs
    → IsLabelled labels ws
    → key vs ≡ key ws
    → vs ≡ ws
key_inj labels [] [] h k e = refl
key_inj labels [] (w ∷ ws) h k e = absurd (ground arith)
key_inj labels (v ∷ vs) [] h k e = absurd (ground arith)
key_inj labels (v ∷ vs) (w ∷ ws) (n, h) (l, k) e =
    sym (split-join 0 v vs h) ∙ ap (split 0) e ∙ split-join 0 w ws k

key_same :
    (labels vs ws : List Bytes)
    → IsLabelled labels vs
    → IsLabelled labels ws
    → bytes_eq (key vs) (key ws) ≡ same_values vs ws
key_same labels vs ws h k = elim (Bool-cases (same_values vs ws)) [
  | inl e ↦ rw (same_values_sound vs ws e, same_values_refl ws) (bytes_eq_refl (key ws))
  | inr e ↦ elim (Bool-cases (bytes_eq (key vs) (key ws))) [
    | inl f ↦
        let same = key_inj labels vs ws h k (bytes_eq_sound _ _ f) in
        absurd (cc (e, ap (same_values vs) same, same_values_refl vs))
    | inr f ↦ rw (e, f) refl
  ]
]

abbrev pub IsCall : List Bytes → Addition → Type 0
IsCall labels a = IsLabelled labels a.values

total-total_at :
    (labels values : List Bytes) (calls : List Addition)
    → IsLabelled labels values
    → All (IsCall labels) calls
    → total_at (key values) calls ≡ total values calls
total-total_at labels values [] h hs = refl
total-total_at labels values (a ∷ calls) h (k, hs) =
    rw (key_same labels a.values values k h, total-total_at labels values calls h hs) refl

read-no_series : (k : Bytes) (labels : List Bytes) → count_or (read k (no_series labels)) ≡ 0
unfolding read get
read-no_series k [] = ground arith
read-no_series k (l ∷ ls) = refl

-- However a program adds to a new counter, with one value for each label and no NUL byte in a
-- value, no call panics, and the value of any such label values is then what was added under those
-- values, as an int64, whatever was added under others.
pub counted_lem :
    (name help : Bytes) (labels : List Bytes) (calls : List Addition) (values : List Bytes)
    → All (IsCall labels) calls
    → IsLabelled labels values
    → (c : Counter) × (run_calls calls (new_counter name help labels) ≡ some c)
      × (value values c ≡ some (int64 (total values calls)))
unfolding new_counter
counted_lem name help labels calls values hs h =
    let c = new_counter name help labels in
    let m = add_all calls (no_series labels) in
    let sum : count_or (read (key values) m) ≡ total values calls % 2 ^ 64 = omega (
      arith,
      count-add_all (key values) calls (no_series labels),
      read-no_series (key values) labels,
      total-total_at labels values calls h hs,
    ) in
    (
      record c { series = m },
      run_calls-add_all calls c (All-mono _ _ (λ a k. k.0) calls hs),
      unfold value in
          rw (h.0) (ap (λ n. some (int64 n)) sum ∙ ap some (int64_mod (total values calls))),
    )
