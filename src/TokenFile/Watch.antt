-- ===== src/TokenFile/Watch.antt =====
-- What a token file keeps while it is read again.
use yukon_collector.Base.{
  ◌≢◌, ◌⊎◌, inl, inr, ◌≡◌, refl, ap, ◌∙◌, Bool, true, false, Option, none, some, List, [], ◌∷◌,
  ◌++◌, append_assoc, Bool-cases, Option-cases, append-nil, Bytes, bytes_eq_sound, bytes_eq_refl,
  if◌then◌else◌, inl, inr, arith,
}
use yukon_collector.Metrics.Counters.{Count, TokenFileLabel, token_reload_failures}
use yukon_collector.TokenFile.{
  Opened, LoadError, Loaded, tokens_of, failed, tokens_eq, File, load, read, checked_read, reloaded,
  opened, open_file, reload, ticks, watch,
}

pub tokens_eq_sound : (s t : List Bytes) → tokens_eq s t ≡ true → s ≡ t
unfolding tokens_eq
tokens_eq_sound [] [] h = refl
tokens_eq_sound (a ∷ s) (b ∷ t) h = ground (arith, bytes_eq_sound a b, tokens_eq_sound s t)
tokens_eq_sound [] (b ∷ t) h = ground arith
tokens_eq_sound (a ∷ s) [] h = ground arith

pub tokens_eq_refl : (s : List Bytes) → tokens_eq s s ≡ true
unfolding tokens_eq
tokens_eq_refl [] = refl
tokens_eq_refl (a ∷ s) = rw (bytes_eq_refl a) (tokens_eq_refl s)

-- The last good tokens after some loads.
abbrev pub latest : List Bytes → List Loaded → List Bytes
latest tokens [] = tokens
latest tokens (failed e ∷ later) = latest tokens later
latest tokens (tokens_of new ∷ later) = latest new later

abbrev pub failures : TokenFileLabel → List Loaded → List Count
failures label [] = []
failures label (failed e ∷ later) = token_reload_failures 1 label ∷ failures label later
failures label (tokens_of new ∷ later) = failures label later

-- Whether the last load failed.
abbrev pub ends_failing : Bool → List Loaded → Bool
ends_failing b [] = b
ends_failing b (failed e ∷ later) = ends_failing true later
ends_failing b (tokens_of new ∷ later) = ends_failing false later

-- The good tokens that differ from the ones before them, given to `apply` in their order.
abbrev pub apply_changes : {S : Type 0} → (List Bytes → S → S) → List Bytes → S → List Loaded → S
apply_changes apply tokens s [] = s
apply_changes apply tokens s (failed e ∷ later) = apply_changes apply tokens s later
apply_changes apply tokens s (tokens_of new ∷ later) =
    apply_changes apply new (if tokens_eq new tokens then s else apply new s) later

-- Where `apply` overwrites what was there, what is applied in the end is the last good read.
pub apply_changes-overwrite :
    {S : Type 0} (put : List Bytes → S) (ts : List Bytes) (ls : List Loaded)
    → apply_changes (λ new s. put new) ts (put ts) ls ≡ put (latest ts ls)
apply_changes-overwrite put ts [] = refl
apply_changes-overwrite put ts (failed e ∷ ls) = apply_changes-overwrite put ts ls
apply_changes-overwrite put ts (tokens_of new ∷ ls) = elim (Bool-cases (tokens_eq new ts)) [
  | inl e ↦ rw (e, tokens_eq_sound new ts e) (apply_changes-overwrite put ts ls)
  | inr e ↦ rw e (apply_changes-overwrite put new ls)
]

-- The loads of some reads.
abbrev pub loads : (List Bytes → Option LoadError) → List (Option Opened) → List Loaded
loads check [] = []
loads check (f ∷ fs) = load check f ∷ loads check fs

module _ {S : Type 0} (label : TokenFileLabel) (check : List Bytes → Option LoadError)
    (apply : List Bytes → S → S) where
  -- What a file is after some loads.
  abbrev pub after_loads : File S → List Loaded → File S
  after_loads f ls = record {
    last = latest f.last ls;
    failing = ends_failing f.failing ls;
    applied = apply_changes apply f.last f.applied ls;
    counts = f.counts ++ failures label ls;
  }

  after_one :
      (f : File S) (l : Loaded) (ls : List Loaded)
      → after_loads (reloaded label check apply f l) ls ≡ after_loads f (l ∷ ls)
  after_one f (failed e) ls =
      cc (append_assoc f.counts (token_reload_failures 1 label ∷ []) (failures label ls))
  after_one f (tokens_of ts) ls = elim (Bool-cases (tokens_eq ts f.last)) [
    | inl e ↦ rw (e, tokens_eq_sound ts f.last e) refl
    | inr e ↦ rw e refl
  ]

  ticks-loads :
      (f : File S) (fs : List (Option Opened))
      → ticks label check apply f fs ≡ after_loads f (loads check fs)
  unfolding ticks reload
  ticks-loads f [] = cc (append-nil f.counts)
  ticks-loads f (g ∷ fs) =
      ticks-loads (reload label check apply f g) fs ∙ after_one f (load check g) (loads check fs)

  pub watch_lem :
      (f : File S) (fs : List (Option Opened))
      → watch label check apply f fs
        ≡ after_loads
            (record f { counts = f.counts ++ token_reload_failures 0 label ∷ [] })
            (loads check fs)
  unfolding watch
  watch_lem f fs = ticks-loads _ fs

module _ (check : List Bytes → Option LoadError) where
  passes : (l : Loaded) (ts : List Bytes) → checked_read check l ≡ tokens_of ts → check ts ≡ none
  passes (failed e) ts h = absurd (ground arith)
  passes (tokens_of new) ts h = elim (Option-cases (check new)) [
    | inl e ↦ ground arith
    | inr (err, e) ↦ absurd (ground arith)
  ]

  latest_one :
      (ts : List Bytes) (l : Loaded) (ls : List Loaded)
      → ((new : List Bytes) → l ≡ tokens_of new → check new ≡ none)
      → check ts ≡ none
      → (now : List Bytes) × (check now ≡ none) × (latest ts (l ∷ ls) ≡ latest now ls)
  latest_one ts (failed e) ls h k = (ts, k, refl)
  latest_one ts (tokens_of new) ls h k = (new, h new refl, refl)

  latest_passes :
      (ts : List Bytes) (fs : List (Option Opened))
      → check ts ≡ none
      → check (latest ts (loads check fs)) ≡ none
  unfolding load
  latest_passes ts [] h = h
  latest_passes ts (g ∷ fs) h =
      let (now, k, e) = latest_one ts (load check g) (loads check fs) (passes (read g)) h in
      ap check e ∙ latest_passes now fs k

module _ {S : Type 0} (label : TokenFileLabel) (check : List Bytes → Option LoadError)
    (apply : List Bytes → S → S) where
  opened_cases :
      (s : S) (l : Loaded) (f : File S)
      → opened check apply s l ≡ some f
      → (ts : List Bytes) × (l ≡ tokens_of ts)
        × (f ≡ record { last = ts; failing = false; applied = apply ts s; counts = [] })
  opened_cases s (failed e) f h = absurd (ground arith)
  opened_cases s (tokens_of ts) f h = (ts, refl, cc)

  -- A file that opened holds, after any number of ticks, the tokens of the last read that was good,
  -- and they pass the check; a read that failed is counted, leaves the tokens and what was applied
  -- as they were, and the file is marked as failing until a read is good; and the good tokens are
  -- applied in their order, each only where it differs from the one before.
  pub watch_opened :
      (g : Option Opened) (s : S) (f : File S) (fs : List (Option Opened))
      → open_file check apply g s ≡ some f
      → (ts : List Bytes) × (load check g ≡ tokens_of ts)
        × (watch label check apply f fs ≡ record {
          last = latest ts (loads check fs);
          failing = ends_failing false (loads check fs);
          applied = apply_changes apply ts (apply ts s) (loads check fs);
          counts = token_reload_failures 0 label ∷ failures label (loads check fs);
        })
        × (check (latest ts (loads check fs)) ≡ none)
  unfolding open_file load
  watch_opened g s f fs h =
      let (ts, l, e) = opened_cases s (load check g) f h in
      (
        ts,
        l,
        rw e (watch_lem label check apply _ fs),
        latest_passes check ts fs (passes check (read g) ts l),
      )

module _ {S : Type 0} (check : List Bytes → Option LoadError) (apply : List Bytes → S → S) where
  -- A file as it is after it opened with these tokens.
  abbrev pub fresh_file : S → List Bytes → File S
  fresh_file s ts = record { last = ts; failing = false; applied = apply ts s; counts = [] }

  opened-cases :
      (s : S) (l : Loaded)
      → ((ts : List Bytes) × (l ≡ tokens_of ts) × (opened check apply s l ≡ some (fresh_file s ts)))
        ⊎ (((ts : List Bytes) → l ≢ tokens_of ts) × (opened check apply s l ≡ none))
  opened-cases s (failed e) = inr (λ ts q. cc q, refl)
  opened-cases s (tokens_of ts) = inl (ts, refl, refl)

  pub open_file-cases :
      (g : Option Opened) (s : S)
      → ((ts : List Bytes) × (load check g ≡ tokens_of ts)
          × (check ts ≡ none)
          × (open_file check apply g s ≡ some (fresh_file s ts)))
        ⊎ (((ts : List Bytes) → load check g ≢ tokens_of ts) × (open_file check apply g s ≡ none))
  unfolding open_file load
  open_file-cases g s = elim (opened-cases s (load check g)) [
    | inl (ts, l, e) ↦ inl (ts, l, passes check (read g) ts l, e)
    | inr (n, e) ↦ inr (n, e)
  ]
