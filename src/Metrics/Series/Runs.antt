-- ===== src/Metrics/Series/Runs.antt =====
-- Runs of `Add` on a counter, and the count of one series after one call.
use yukon_collector.Base.{
  All, length, ◌==◌, ℕ, ◌+◌, ◌%◌, ◌^◌, ◌≡◌, refl, ap, ◌∙◌, inl, inr, Bool-cases, Option-cases, true,
  Option, none, some, List, [], ◌∷◌, Bytes, bytes_eq, bytes_eq_sound, bytes_eq_refl, if◌then◌else◌,
  arith,
}
use yukon_collector.Metrics.Series.{Series, Counter, read, get, add_at, count_or, key, add}

read-get :
    (j k : Bytes) (m : Series)
    → read j (get k m) ≡ (if bytes_eq k j then some (count_or (read k m)) else read j m)
unfolding get read
read-get j k m = elim (Option-cases (read k m)) [
  | inl e ↦ rw e refl
  | inr (v, e) ↦ elim (Bool-cases (bytes_eq k j)) [
    | inl q ↦ let same : k ≡ j = bytes_eq_sound k j q in rw (e, q) (rw (← same) e)
    | inr q ↦ rw (e, q) refl
  ]
]

abbrev plus : ℕ → Option ℕ → Option ℕ
plus n none = none
plus n (some v) = some ((v + n) % 2 ^ 64)

read-add_at :
    (j k : Bytes) (n : ℕ) (m : Series)
    → read j (add_at k n m) ≡ (if bytes_eq k j then plus n (read k m) else read j m)
unfolding add_at read
read-add_at j k n [] = ground arith
read-add_at j k n ((q, v) ∷ m) = elim (Bool-cases (bytes_eq q k)) [
  | inl e ↦
      let same : q ≡ k = bytes_eq_sound q k e in
      elim (Bool-cases (bytes_eq k j)) [
        | inl f ↦ rw (e, f, same, f) refl
        | inr f ↦ rw (e, f, same, f) refl
      ]
  | inr e ↦ elim (Bool-cases (bytes_eq q j)) [
    | inl f ↦ elim (Bool-cases (bytes_eq k j)) [
      | inl g ↦ absurd (ground (arith, bytes_eq_sound q j f, bytes_eq_sound k j g, bytes_eq_refl q))
      | inr g ↦ rw (e, f, g) refl
    ]
    | inr f ↦ rw (e, f) (read-add_at j k n m)
  ]
]

-- One addition changes the count of its own series only, and creates it.
pub read-add :
    (j k : Bytes) (n : ℕ) (m : Series)
    → read j (add_at k n (get k m))
      ≡ (if bytes_eq k j then some ((count_or (read k m) + n) % 2 ^ 64) else read j m)
read-add j k n m = elim (Bool-cases (bytes_eq k j)) [
  | inl e ↦ rw (read-add_at j k n (get k m), e, read-get k k m, bytes_eq_refl k) refl
  | inr e ↦ rw (read-add_at j k n (get k m), e, read-get j k m, e) refl
]

-- One call of `Add`.
pub record Addition : Type 0 where
  pub amount : ℕ
  pub values : List Bytes

abbrev pub run_on : List Addition → Option Counter → Option Counter
run_on calls none = none
run_on [] (some c) = some c
run_on (a ∷ calls) (some c) = run_on calls (add a.amount a.values c)

-- The calls of a program on a counter, oldest first.
abbrev pub run_calls : List Addition → Counter → Option Counter
run_calls calls c = run_on calls (some c)

abbrev pub after_call : Addition → Series → Series
after_call a m = add_at (key a.values) a.amount (get (key a.values) m)

-- The series after the calls.
unfoldable pub add_all : List Addition → Series → Series
add_all [] m = m
add_all (a ∷ calls) m = add_all calls (after_call a m)

abbrev pub Fits : List Bytes → Addition → Type 0
Fits labels a = (length a.values == length labels) ≡ true

pub run_calls-add_all :
    (calls : List Addition) (c : Counter)
    → All (Fits c.labels) calls
    → run_calls calls c ≡ some (record c { series = add_all calls c.series })
unfolding add_all
run_calls-add_all [] c h = refl
run_calls-add_all (a ∷ calls) c (h, hs) =
    let next : add a.amount a.values c
        ≡ some
            (record c { series = add_at (key a.values) a.amount (get (key a.values) c.series) }) =
      unfold add in rw h refl in
    ap (run_on calls) next ∙ run_calls-add_all calls _ hs

pub count-after_call :
    (k : Bytes) (a : Addition) (m : Series)
    → count_or (read k (after_call a m)) ≡ (
        if bytes_eq (key a.values) k
        then (count_or (read k m) + a.amount) % 2 ^ 64
        else count_or (read k m))
count-after_call k a m = elim (Bool-cases (bytes_eq (key a.values) k)) [
  | inl e ↦
      rw (read-add k (key a.values) a.amount m, e)
        (ap (λ q. (count_or (read q m) + a.amount) % 2 ^ 64) (bytes_eq_sound _ k e))
  | inr e ↦ rw (read-add k (key a.values) a.amount m, e) refl
]
