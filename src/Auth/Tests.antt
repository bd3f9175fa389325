-- ===== src/Auth/Tests.antt =====
-- The check at concrete headers, with a function in place of SHA-256 that keeps the text.
use yukon_collector.Base.{
  ℕ, ◌≡◌, ◌<◌, ◌⊎◌, ◌+◌, refl, false, Option, none, some, List, [], ◌∷◌, Bytes, codes, length,
  bytes_eq,
}
use yukon_collector.Text.Fold.{equal_fold}
use yukon_collector.Metrics.Counters.{auth}
use yukon_collector.Auth.{
  replace, TokenSet, empty_set, bearer_token, store, served, require_bearer_token,
}
use yukon_collector.Auth.Accepts.{Allowed, refusal}
use yukon_collector.Auth.Watched.{watched_lem}
use yukon_collector.TokenFile.{Opened, tokens_of, File, load, at_least_one, open_file, watch}
use yukon_collector.TokenFile.Watch.{latest, loads}
use yukon_collector.TokenFile.Tests.{file_of, alpha, load-alpha}

abbrev keep : Bytes → Bytes
keep s = s

abbrev header : Bytes
header = codes "bearer alpha"

bearer_token_test : bearer_token (codes "bEARER s3cret") ≡ some (codes "s3cret")
unfolding bearer_token equal_fold bytes_eq
bearer_token_test = refl

abbrev opened_set : File TokenSet
opened_set = record {
  last = alpha ∷ [];
  failing = false;
  applied = store keep (alpha ∷ []);
  counts = [];
}

opens_set : open_file at_least_one (replace keep) (file_of alpha) empty_set ≡ some opened_set
unfolding open_file
opens_set = rw load-alpha refl

abbrev later : List (Option Opened)
later = none ∷ file_of (codes "beta\nalpha\n") ∷ []

watched_lem_example :
    (ts : List Bytes) × (load at_least_one (file_of alpha) ≡ tokens_of ts)
    × (let now = latest ts (loads at_least_one later) in
        let answer =
          require_bearer_token keep
            (watch auth at_least_one (replace keep) opened_set later).applied
            (λ (n : ℕ). n + 1)
            header
            1 in
        (0 < length now)
        × ((Allowed keep now header × (answer ≡ served 2))
            ⊎ (¬ Allowed keep now header × (answer ≡ refusal keep))))
watched_lem_example =
    watched_lem keep (file_of alpha) opened_set later (λ (n : ℕ). n + 1) header 1 opens_set
