-- ===== src/Metrics/Series.antt =====
-- metrics/metrics.go: a counter and its series. A key of the map is the label values joined by NUL
-- bytes; a count is the bit pattern of its int64. `none` is a panic.
pub mod Runs
pub mod Totals
pub mod Orders
use yukon_collector.Base.{
  ℕ, zero, suc, ◌+◌, ◌%◌, ◌^◌, ◌≡◌, refl, Bool, true, false, Option, none, some, List, [], ◌∷◌,
  ◌++◌, map, Bytes, codes, bytes_eq, length, ◌==◌, if◌then◌else◌, ℤ, pos, int64,
}
use yukon_collector.Text.Parts.{join}

abbrev pub Series : Type 0
Series = List (Bytes × ℕ)

pub record Counter : Type 0 where
  pub name : Bytes
  pub help : Bytes
  pub labels : List Bytes
  pub series : Series

-- Looking a key up in the map.
unfoldable pub read : Bytes → Series → Option ℕ
read k [] = none
read k ((q, v) ∷ m) = if bytes_eq q k then some v else read k m

-- `get`, which creates a series that is not there.
abbrev pub created : Bytes → Series → Option ℕ → Series
created k m none = (k, 0) ∷ m
created k m (some v) = m

unfoldable pub get : Bytes → Series → Series
get k m = created k m (read k m)

-- `Add` of an `atomic.Int64` of the map.
unfoldable pub add_at : Bytes → ℕ → Series → Series
add_at k n [] = []
add_at k n ((q, v) ∷ m) =
    let rest = add_at k n m in if bytes_eq q k then (q, (v + n) % 2 ^ 64) ∷ m else (q, v) ∷ rest

abbrev pub count_or : Option ℕ → ℕ
count_or none = 0
count_or (some v) = v

abbrev pub key : List Bytes → Bytes
key values = join 0 values

abbrev pub no_series : (labels : List Bytes) → Series
no_series [] = get (key []) []
no_series (l ∷ ls) = []

unfoldable pub new_counter : (name help : Bytes) (labels : List Bytes) → Counter
new_counter name help labels = record {
  name = name;
  help = help;
  labels = labels;
  series = no_series labels;
}

unfoldable pub add : ℕ → List Bytes → Counter → Option Counter
unfolding get add_at
add n values c =
    if length values == length c.labels
    then some (record c { series = add_at (key values) n (get (key values) c.series) })
    else none

unfoldable pub inc : List Bytes → Counter → Option Counter
unfolding add
inc values c = add 1 values c

unfoldable pub value : List Bytes → Counter → Option ℤ
value values c =
    if length values == length c.labels
    then some (int64 (count_or (read (key values) c.series)))
    else none

-- `NewCounter` on the registry.
unfoldable pub is_registered : Bytes → List Counter → Bool
is_registered name [] = false
is_registered name (c ∷ cs) = if bytes_eq c.name name then true else is_registered name cs

unfoldable pub register : Counter → List Counter → Option (List Counter)
register c registry = if is_registered c.name registry then none else some (registry ++ c ∷ [])
