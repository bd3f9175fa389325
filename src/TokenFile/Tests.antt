-- ===== src/TokenFile/Tests.antt =====
-- Token files at concrete contents.
use yukon_collector.Base.{
  ◌⊎◌, ◌≡◌, refl, true, false, Option, none, some, List, [], ◌∷◌, ◌++◌, Bytes, codes, bytes_eq,
  is_empty, arith,
}
use yukon_collector.Text.Space.{trim_space}
use yukon_collector.Text.Parts.{split, join}
use yukon_collector.Metrics.Counters.{auth, token_reload_failures}
use yukon_collector.TokenFile.{
  Opened, tokens_of, trim_bom, is_comment, collect, parse, read, File, load, at_least_one,
  open_file, watch,
}
use yukon_collector.TokenFile.Parse.{IsToken, parse-join}
use yukon_collector.TokenFile.Watch.{
  latest, loads, ends_failing, failures, apply_changes, watch_opened,
}

abbrev pub file_of : Bytes → Option Opened
file_of text = some (record { is_regular = some true; content = some text })

abbrev pub alpha : Bytes
alpha = codes "alpha"

abbrev beta : Bytes
beta = codes "beta"

parse_test : parse (codes "# keys\n alpha \n\nbeta\n") ≡ alpha ∷ beta ∷ []
unfolding parse collect split trim_bom bytes_eq is_empty trim_space is_comment
parse_test = refl

pub load-alpha : load at_least_one (file_of alpha) ≡ tokens_of (alpha ∷ [])
unfolding load read at_least_one parse collect split trim_bom bytes_eq is_empty trim_space
    is_comment
load-alpha = refl

alpha-IsToken : IsToken alpha
unfolding trim_space is_comment is_empty
alpha-IsToken = record {
  one_line = (omega arith, (omega arith, (omega arith, (omega arith, (omega arith, _)))));
  trimmed = refl;
  some_text = refl;
  no_comment = refl;
}

beta-IsToken : IsToken beta
unfolding trim_space is_comment is_empty
beta-IsToken = record {
  one_line = (omega arith, (omega arith, (omega arith, (omega arith, _))));
  trimmed = refl;
  some_text = refl;
  no_comment = refl;
}

parse-join_example :
    (parse (0xEF ∷ 0xBB ∷ 0xBF ∷ join b'\n' (alpha ∷ beta ∷ [])) ≡ alpha ∷ beta ∷ [])
    × ((parse (join b'\n' (alpha ∷ beta ∷ [])) ≡ alpha ∷ beta ∷ [])
        ⊎ ((rest : Bytes) × (join b'\n' (alpha ∷ beta ∷ []) ≡ 0xEF ∷ 0xBB ∷ 0xBF ∷ rest)))
parse-join_example = parse-join (alpha ∷ beta ∷ []) (alpha-IsToken, (beta-IsToken, _))

-- A consumer that keeps all that was applied.
abbrev log_tokens : List Bytes → List (List Bytes) → List (List Bytes)
log_tokens tokens seen = seen ++ tokens ∷ []

abbrev opened_alpha : File (List (List Bytes))
opened_alpha = record {
  last = alpha ∷ [];
  failing = false;
  applied = (alpha ∷ []) ∷ [];
  counts = [];
}

-- The file goes away, is a directory, comes back as it was, and changes.
abbrev reads : List (Option Opened)
reads =
    none
    ∷ some (record { is_regular = some false; content = none })
    ∷ file_of alpha
    ∷ file_of (codes "# new\nbeta")
    ∷ []

opens_alpha : open_file at_least_one log_tokens (file_of alpha) [] ≡ some opened_alpha
unfolding open_file
opens_alpha = rw load-alpha refl

watch_opened_example :
    (ts : List Bytes) × (load at_least_one (file_of alpha) ≡ tokens_of ts)
    × (watch auth at_least_one log_tokens opened_alpha reads ≡ record {
      last = latest ts (loads at_least_one reads);
      failing = ends_failing false (loads at_least_one reads);
      applied = apply_changes log_tokens ts (log_tokens ts []) (loads at_least_one reads);
      counts = token_reload_failures 0 auth ∷ failures auth (loads at_least_one reads);
    })
    × (at_least_one (latest ts (loads at_least_one reads)) ≡ none)
watch_opened_example =
    watch_opened auth at_least_one log_tokens (file_of alpha) [] opened_alpha reads opens_alpha
