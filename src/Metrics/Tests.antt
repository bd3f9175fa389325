-- ===== src/Metrics/Tests.antt =====
-- Counters at concrete calls.
use mathlib.Core.List.{Permᴰ}
use yukon_collector.Base.{
  ◌≡◌, refl, ◌⊎◌, true, false, none, some, List, [], ◌∷◌, ◌++◌, Bytes, codes, bytes_eq, int64,
  arith,
}
use yukon_collector.Text.Parts.{join}
use yukon_collector.Metrics.Series.{Counter, new_counter, value, add, get, add_at, read, key}
use yukon_collector.Metrics.Series.Runs.{Addition, run_calls}
use yukon_collector.Metrics.Series.Totals.{IsLabelled, total, counted_lem}
use yukon_collector.Metrics.Exposition.{escape_label_value, render, render_all}
use yukon_collector.Metrics.Exposition.Escapes.{read_value, read_value-escape_label_value}
use yukon_collector.Metrics.Exposition.Total.{render-perm}
use yukon_collector.Metrics.Registry.{register_all}
use yukon_collector.Metrics.Registry.Shown.{repeats, render_all-perm}

abbrev labels : List Bytes
labels = codes "payload" ∷ codes "reason" ∷ []

abbrev full : List Bytes
full = codes "d" ∷ codes "f" ∷ []

abbrev closing : List Bytes
closing = codes "d" ∷ codes "c" ∷ []

abbrev one : Addition
one = record { amount = 1; values = full }

abbrev two : Addition
two = record { amount = 2; values = closing }

abbrev three : Addition
three = record { amount = 3; values = full }

full-IsLabelled : IsLabelled labels full
full-IsLabelled = (refl, ((omega arith, _), ((omega arith, _), _)))

closing-IsLabelled : IsLabelled labels closing
closing-IsLabelled = (refl, ((omega arith, _), ((omega arith, _), _)))

counted_lem_example :
    (c : Counter) × (run_calls (one ∷ two ∷ three ∷ []) (new_counter (codes "n") (codes "h") labels)
      ≡ some c)
    × (value full c ≡ some (int64 (total full (one ∷ two ∷ three ∷ []))))
counted_lem_example =
    counted_lem (codes "n") (codes "h") labels (one ∷ two ∷ three ∷ []) full
      (full-IsLabelled, (closing-IsLabelled, (full-IsLabelled, _))) full-IsLabelled

total_test : ◌≡◌ (total full (one ∷ two ∷ three ∷ [])) 4
unfolding bytes_eq
total_test = refl

render-perm_example :
    (c d : Counter) × (text : Bytes) × (run_calls
        (one ∷ two ∷ three ∷ [])
        (new_counter (codes "n") (codes "h") labels)
      ≡ some c)
    × (run_calls (two ∷ one ∷ three ∷ []) (new_counter (codes "n") (codes "h") labels) ≡ some d)
    × (render c ≡ some text)
    × (render d ≡ some text)
render-perm_example =
    render-perm (codes "n") (codes "h") labels (one ∷ two ∷ three ∷ []) (two ∷ one ∷ three ∷ [])
      (refl, (refl, (refl, _))) (Permᴰ.swap refl refl)

read_value-escape_label_value_example :
    read_value (escape_label_value (codes "a\"\\\nb") ++ b'"' ∷ codes "} 1")
    ≡ some (codes "a\"\\\nb", codes "} 1")
read_value-escape_label_value_example =
    read_value-escape_label_value (codes "a\"\\\nb") (codes "} 1")

run_calls-none : (c : Counter) → run_calls [] c ≡ some c
unfolding run_calls
run_calls-none c = refl

abbrev plain : Counter
plain = new_counter (codes "n") (codes "h") []

abbrev labelled : Counter
labelled = record {
  name = codes "m";
  help = codes "h";
  labels = labels;
  series = (key closing, 2) ∷ (key full, 4) ∷ [];
}

labelled_calls :
    run_calls (one ∷ two ∷ three ∷ []) (new_counter (codes "m") (codes "h") labels) ≡ some labelled
unfolding add new_counter get add_at read bytes_eq join
labelled_calls = refl

render_all-perm_example :
    ((repeats (plain ∷ labelled ∷ []) ≡ true)
      × (register_all (plain ∷ labelled ∷ []) [] ≡ none)
      × (register_all (labelled ∷ plain ∷ []) [] ≡ none))
    ⊎ ((repeats (plain ∷ labelled ∷ []) ≡ false)
        × (r s : List Counter) × (text : Bytes) × (register_all (plain ∷ labelled ∷ []) [] ≡ some r)
        × (register_all (labelled ∷ plain ∷ []) [] ≡ some s)
        × (render_all r ≡ some text)
        × (render_all s ≡ some text))
render_all-perm_example =
    render_all-perm (plain ∷ labelled ∷ []) (labelled ∷ plain ∷ [])
      (
        (codes "n", codes "h", [], [], _, run_calls-none plain),
        (
          (
            codes "m",
            codes "h",
            labels,
            one ∷ two ∷ three ∷ [],
            (refl, (refl, (refl, _))),
            labelled_calls,
          ),
          _,
        ),
      )
      (Permᴰ.swap refl refl)
