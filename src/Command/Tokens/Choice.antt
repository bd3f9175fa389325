-- ===== src/Command/Tokens/Choice.antt =====
-- What the token variables decide.
use yukon_collector.Base.{
  ℕ, suc, ◌+◌, ◌<◌, ◌≡◌, ◌≢◌, refl, ap, ◌⊎◌, inl, inr, Bool-cases, Option-cases, true, false,
  Option, some, List, [], ◌∷◌, ◌++◌, map, All, Bytes, is_empty, is_empty_sound, is_empty_complete,
  length, arith,
}
use yukon_collector.Text.Space.{trim_space}
use yukon_collector.Text.Parts.{split}
use yukon_collector.Auth.{TokenSet, empty_set, store, new_token_set, replace}
use yukon_collector.Auth.Watched.{at_least_one_lem}
use yukon_collector.TokenFile.{Opened, tokens_of, File, load, at_least_one, open_file}
use yukon_collector.TokenFile.Watch.{fresh_file, open_file-cases}
use yukon_collector.Command.Settings.{
  both_set, empty_entry, bad_file, no_auth, Result, ok, err, Getenv, parse_bool,
}
use yukon_collector.Command.Tokens.{
  auth_token_variable, auth_token_file, insecure_no_auth, trim_entries, parse_token_list,
  AuthChoice, open_to_all, fixed, from_file, resolve_auth_tokens,
}

-- An entry that is not blank.
abbrev pub IsEntry : Bytes → Type 0
IsEntry part = trim_space part ≢ []

-- The entries before the first blank one, and those behind it.
pub record FirstBlank (parts : List Bytes) : Type 0 where
  pub before : List Bytes
  pub blank : Bytes
  pub behind : List Bytes
  pub split_at : parts ≡ before ++ blank ∷ behind
  pub entries : All IsEntry before
  pub is_blank : trim_space blank ≡ []

trim_entries_lem :
    (name : Bytes) (i count : ℕ) (parts : List Bytes)
    → (All IsEntry parts × (trim_entries name i count parts ≡ ok (map trim_space parts)))
      ⊎ ((b : FirstBlank parts) × (trim_entries name i count parts
            ≡ err (empty_entry name (i + length b.before) count)))
unfolding trim_entries
trim_entries_lem name i count [] = inl (_, refl)
trim_entries_lem name i count (part ∷ parts) = elim (Bool-cases (is_empty (trim_space part))) [
  | inl q ↦ inr (
    record {
      before = [];
      blank = part;
      behind = parts;
      split_at = refl;
      entries = _;
      is_blank = is_empty_sound _ q;
    },
    rw q (ap (λ n. err (empty_entry name n count)) (omega arith)),
  )
  | inr q ↦ elim (trim_entries_lem name (suc i) count parts) [
    | inl (h, e) ↦ inl ((is_empty_complete _ q, h), rw (q, e) refl)
    | inr (b, e) ↦ inr (
      record {
        before = part ∷ b.before;
        blank = b.blank;
        behind = b.behind;
        split_at = ap (λ ps. part ∷ ps) b.split_at;
        entries = (is_empty_complete _ q, b.entries);
        is_blank = b.is_blank;
      },
      rw (q, e) (ap (λ n. err (empty_entry name n count)) (omega arith)),
    )
  ]
]

module _ (sha256 : Bytes → Bytes) (files : Bytes → Option Opened) where
  -- What the variables ask for, and the result that goes with it.
  pub data Decides (raw path insecure : Bytes) (r : Result AuthChoice) : Type 0 where
    contradiction :
        raw ≢ []
        → path ≢ []
        → r ≡ err (both_set auth_token_variable auth_token_file)
        → Decides raw path insecure r
    unusable_file :
        raw ≡ []
        → path ≢ []
        → ((ts : List Bytes) → load at_least_one (files path) ≢ tokens_of ts)
        → r ≡ err (bad_file auth_token_file)
        → Decides raw path insecure r
    usable_file :
        (ts : List Bytes) (f : File TokenSet)
        → raw ≡ []
        → path ≢ []
        → load at_least_one (files path) ≡ tokens_of ts
        → 0 < length ts
        → f.applied ≡ store sha256 ts
        → open_file at_least_one (replace sha256) (files path) empty_set ≡ some f
        → r ≡ ok (from_file f)
        → Decides raw path insecure r
    blank_entry :
        (b : FirstBlank (split b',' raw))
        → raw ≢ []
        → path ≡ []
        → r ≡ err (empty_entry auth_token_variable (1 + length b.before) (length (split b',' raw)))
        → Decides raw path insecure r
    listed :
        raw ≢ []
        → path ≡ []
        → All IsEntry (split b',' raw)
        → r ≡ ok (fixed (store sha256 (map trim_space (split b',' raw))))
        → Decides raw path insecure r
    opted_out :
        raw ≡ []
        → path ≡ []
        → parse_bool insecure ≡ some true
        → r ≡ ok open_to_all
        → Decides raw path insecure r
    closed :
        raw ≡ []
        → path ≡ []
        → parse_bool insecure ≢ some true
        → r ≡ err no_auth
        → Decides raw path insecure r

  -- The result is one of seven, and each goes with what the variables hold: an error for both set, an
  -- error for a file that gives no tokens, the file with the tokens that it gave, an error that names
  -- the first blank entry, the listed tokens without the spaces around them, no check at all where
  -- neither is set and the operator opted out, and an error where not.
  pub resolve_auth_tokens_lem :
      (getenv : Getenv)
      → Decides
          (getenv auth_token_variable)
          (getenv auth_token_file)
          (getenv insecure_no_auth)
          (resolve_auth_tokens sha256 files getenv)
  unfolding resolve_auth_tokens parse_token_list new_token_set
  resolve_auth_tokens_lem getenv = elim (Bool-cases (is_empty (getenv auth_token_file))) [
    | inr p ↦ elim (Bool-cases (is_empty (getenv auth_token_variable))) [
      | inr q ↦ contradiction (is_empty_complete _ q) (is_empty_complete _ p) (rw (q, p) refl)
      | inl q ↦
          elim (open_file-cases at_least_one (replace sha256) (files (getenv auth_token_file))
            empty_set) [
              | inl (ts, l, k, e) ↦
                  usable_file ts (fresh_file at_least_one (replace sha256) empty_set ts)
                    (is_empty_sound _ q) (is_empty_complete _ p) l (at_least_one_lem ts k) refl e
                    (rw (q, p, e) refl)
              | inr (n, e) ↦
                  unusable_file (is_empty_sound _ q) (is_empty_complete _ p) n (rw (q, p, e) refl)
            ]
    ]
    | inl p ↦ elim (Bool-cases (is_empty (getenv auth_token_variable))) [
      | inr q ↦
          elim (trim_entries_lem auth_token_variable 1
            (length (split b',' (getenv auth_token_variable)))
            (split b',' (getenv auth_token_variable))) [
              | inl (h, e) ↦
                  listed (is_empty_complete _ q) (is_empty_sound _ p) h (rw (q, p, e) refl)
              | inr (b, e) ↦
                  blank_entry b (is_empty_complete _ q) (is_empty_sound _ p) (rw (q, p, e) refl)
            ]
      | inl q ↦ elim (Option-cases (parse_bool (getenv insecure_no_auth))) [
        | inl e ↦ closed (is_empty_sound _ q) (is_empty_sound _ p) (λ h. cc) (rw (q, p, e) refl)
        | inr (true, e) ↦ opted_out (is_empty_sound _ q) (is_empty_sound _ p) e (rw (q, p, e) refl)
        | inr (false, e) ↦
            closed (is_empty_sound _ q) (is_empty_sound _ p) (λ h. cc (e, h)) (rw (q, p, e) refl)
      ]
    ]
  ]
