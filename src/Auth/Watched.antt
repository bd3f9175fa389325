-- ===== src/Auth/Watched.antt =====
-- The check of the requests together with the token file that cmd/otherlode-collector/main.go opens
-- for it.
use yukon_collector.Base.{
  ◌≡◌, ap, ◌∙◌, ◌<◌, ◌⊎◌, Option, some, none, List, [], ◌∷◌, Bytes, length, arith,
}
use yukon_collector.Metrics.Counters.{auth}
use yukon_collector.Auth.{TokenSet, empty_set, store, replace, served, require_bearer_token}
use yukon_collector.Auth.Accepts.{Allowed, refusal, require_bearer_token_lem}
use yukon_collector.TokenFile.{Opened, tokens_of, File, load, at_least_one, open_file, watch}
use yukon_collector.TokenFile.Watch.{latest, loads, apply_changes-overwrite, watch_opened}

pub at_least_one_lem : (ts : List Bytes) → at_least_one ts ≡ none → 0 < length ts
unfolding at_least_one
at_least_one_lem [] h = absurd (ground arith)
at_least_one_lem (t ∷ ts) h = omega arith

-- The tokens that are required after re-reads of a file that opened.
pub watched_tokens :
    (sha256 : Bytes → Bytes) (g : Option Opened) (f : File TokenSet) (fs : List (Option Opened))
    → open_file at_least_one (replace sha256) g empty_set ≡ some f
    → (ts : List Bytes) × (load at_least_one g ≡ tokens_of ts)
      × (0 < length (latest ts (loads at_least_one fs)))
      × ((watch auth at_least_one (replace sha256) f fs).applied
          ≡ store sha256 (latest ts (loads at_least_one fs)))
watched_tokens sha256 g f fs h =
    let (ts, l, e, passes) = watch_opened auth at_least_one (replace sha256) g empty_set f fs h in
    let now = latest ts (loads at_least_one fs) in
    (
      ts,
      l,
      at_least_one_lem now passes,
      ap (λ w. w.applied) e ∙ apply_changes-overwrite (store sha256) ts (loads at_least_one fs),
    )

-- A collector that started with a token file serves, after any number of re-reads, exactly the
-- requests whose Bearer token hashes as one of the tokens of the last good read does, and turns
-- away all others; and that read held a token.
pub watched_lem :
    {Q R : Type 0} (sha256 : Bytes → Bytes) (g : Option Opened) (f : File TokenSet)
    (fs : List (Option Opened)) (next : Q → R) (header : Bytes) (r : Q)
    → open_file at_least_one (replace sha256) g empty_set ≡ some f
    → (ts : List Bytes) × (load at_least_one g ≡ tokens_of ts)
      × (let now = latest ts (loads at_least_one fs) in
          let answer =
            require_bearer_token sha256
              (watch auth at_least_one (replace sha256) f fs).applied
              next
              header
              r in
          (0 < length now)
          × ((Allowed sha256 now header × (answer ≡ served (next r)))
              ⊎ (¬ Allowed sha256 now header × (answer ≡ refusal sha256))))
watched_lem sha256 g f fs next header r h =
    let (ts, l, p, a) = watched_tokens sha256 g f fs h in
    let now = latest ts (loads at_least_one fs) in
    (ts, l, (p, rw a (require_bearer_token_lem sha256 now next header r)))
