-- ===== src/Metrics/Exposition.antt =====
-- metrics/metrics.go: the counters as text, in the Prometheus exposition format. `none` is a panic.
pub mod Escapes
pub mod Total
use yukon_collector.Base.{
  ℕ, zero, suc, ◌≡◌, refl, Bool, true, false, Option, none, some, List, [], ◌∷◌, ◌++◌, map, Bytes,
  codes, bytes_eq, ◌==◌, if◌then◌else◌, ℤ, pos, negsuc, int64,
}
use yukon_collector.Text.Decimal.{itoa}
use yukon_collector.Text.Parts.{split}
use yukon_collector.Text.Order.{le_bytes, sort}
use yukon_collector.Metrics.Series.{Series, Counter, read}

unfoldable pub escape_help : Bytes → Bytes
escape_help [] = []
escape_help (c ∷ s) =
    let rest = escape_help s in
    if c == b'\\'
    then b'\\' ∷ b'\\' ∷ rest
    else if c == b'\n'
    then b'\\' ∷ b'n' ∷ rest
    else c ∷ rest

unfoldable pub escape_label_value : Bytes → Bytes
escape_label_value [] = []
escape_label_value (c ∷ s) =
    let rest = escape_label_value s in
    if c == b'\\'
    then b'\\' ∷ b'\\' ∷ rest
    else if c == b'"'
    then b'\\' ∷ b'"' ∷ rest
    else if c == b'\n'
    then b'\\' ∷ b'n' ∷ rest
    else c ∷ rest

-- `%d`.
abbrev pub decimal : ℤ → Bytes
decimal (pos n) = itoa n
decimal (negsuc n) = b'-' ∷ itoa (suc n)

abbrev pub comma : ℕ → Bytes
comma zero = []
comma (suc i) = b',' ∷ []

abbrev pub in_front : Bytes → Option Bytes → Option Bytes
in_front s none = none
in_front s (some t) = some (s ++ t)

-- The loop over the labels from number `i`; a label without a value is an index out of range.
unfoldable pub label_pairs : ℕ → (labels values : List Bytes) → Option Bytes
label_pairs i [] values = some []
label_pairs i (l ∷ ls) [] = none
label_pairs i (l ∷ ls) (v ∷ vs) =
    in_front (comma i ++ l ++ codes "=\"" ++ escape_label_value v ++ codes "\"")
      (label_pairs (suc i) ls vs)

abbrev pub braced : Option Bytes → Option Bytes
braced none = none
braced (some s) = some (b'{' ∷ s ++ codes "}")

abbrev pub label_set : (labels values : List Bytes) → Option Bytes
label_set [] values = some []
label_set (l ∷ ls) values = braced (label_pairs 0 (l ∷ ls) values)

abbrev pub with_count : Option Bytes → Option ℕ → Option Bytes
with_count none v = none
with_count (some s) none = none
with_count (some s) (some v) = some (s ++ b' ' ∷ decimal (int64 v) ++ codes "\n")

-- The line of one series.
unfoldable pub sample : (name : Bytes) (labels : List Bytes) (k : Bytes) → Option ℕ → Option Bytes
sample name labels k v = in_front name (with_count (label_set labels (split 0 k)) v)

abbrev pub append_some : Option Bytes → Option Bytes → Option Bytes
append_some none t = none
append_some (some s) t = in_front s t

-- The loop over the sorted keys.
unfoldable pub samples :
    (name : Bytes) (labels : List Bytes) → (Bytes → Option ℕ) → List Bytes → Option Bytes
samples name labels load [] = some []
samples name labels load (k ∷ ks) =
    append_some (sample name labels k (load k)) (samples name labels load ks)

abbrev pub keys_of : Series → List Bytes
keys_of [] = []
keys_of ((k, v) ∷ m) = k ∷ keys_of m

abbrev pub preamble : Counter → Bytes
preamble c =
    codes "# HELP "
    ++ c.name
    ++ b' ' ∷ escape_help c.help
    ++ codes "\n# TYPE "
    ++ c.name
    ++ codes " counter\n"

unfoldable pub render : Counter → Option Bytes
unfolding samples sample label_pairs escape_label_value escape_help
render c =
    in_front (preamble c)
      (samples c.name c.labels (λ k. read k c.series) (sort le_bytes (keys_of c.series)))

abbrev pub by_name : Counter → Counter → Bool
by_name c d = le_bytes c.name d.name

unfoldable pub render_each : List Counter → Option Bytes
render_each [] = some []
render_each (c ∷ cs) = append_some (render c) (render_each cs)

unfoldable pub render_all : List Counter → Option Bytes
unfolding render_each
render_all registry = render_each (sort by_name registry)

render_test :
    render (record {
      name = codes "n";
      help = codes "h";
      labels = codes "l" ∷ [];
      series = (codes "b", 2) ∷ (codes "a", 1) ∷ [];
    })
    ≡ some (codes "# HELP n h\n# TYPE n counter\nn{l=\"a\"} 1\nn{l=\"b\"} 2\n")
unfolding render read sort split itoa le_bytes bytes_eq
render_test = refl
