-- ===== src/Forward/Config/Checks.antt =====
-- What the defaults and the check of the URL guarantee.
use mathlib.Core.List.{reverse, reverse-reverse, reverse-append}
use yukon_collector.Base.{
  ℕ, ◌<◌, ◌≡◌, ◌≢◌, ◌⊎◌, sym, ap, ◌∙◌, false, Option, some, [], ◌∷◌, ◌++◌, Bytes, codes,
  bytes_eq_sound, is_empty_sound, is_empty_complete, ℤ, pos, negsuc, arith, Option-cases, inl, inr,
}
use yukon_collector.Forward.Config.{
  Config, with_defaults, Url, usable, contains, drop_byte, trim_slashes, validate_url, check_parts,
  or_default,
}

abbrev pub IsPositive : ℤ → Type 0
IsPositive (pos n) = 0 < n
IsPositive (negsuc n) = ⊥

-- The sizes and durations that a sink runs with.
pub record IsComplete (c : Config) : Type 0 where
  pub shards : IsPositive c.shards
  pub queue_size : IsPositive c.queue_size
  pub queue_bytes : IsPositive c.queue_bytes
  pub request_timeout : IsPositive c.request_timeout
  pub retry_initial_interval : IsPositive c.retry_initial_interval
  pub retry_max_interval : IsPositive c.retry_max_interval
  pub retry_max_elapsed_time : IsPositive c.retry_max_elapsed_time

or_default-IsPositive : (v : ℤ) (d : ℕ) → 0 < d → IsPositive (or_default v d)
or_default-IsPositive (pos n) d h = ground arith
or_default-IsPositive (negsuc n) d h = h

or_default_kept : (v : ℤ) (d : ℕ) → IsPositive v → or_default v d ≡ v
or_default_kept (pos n) d h = ground arith
or_default_kept (negsuc n) d h = absurd h

-- Every size and duration is positive once the defaults are filled in.
pub with_defaults-IsComplete : (c : Config) → IsComplete (with_defaults c)
unfolding with_defaults
with_defaults-IsComplete c = record {
  shards = or_default-IsPositive c.shards _ (omega arith);
  queue_size = or_default-IsPositive c.queue_size _ (omega arith);
  queue_bytes = or_default-IsPositive c.queue_bytes _ (omega arith);
  request_timeout = or_default-IsPositive c.request_timeout _ (omega arith);
  retry_initial_interval = or_default-IsPositive c.retry_initial_interval _ (omega arith);
  retry_max_interval = or_default-IsPositive c.retry_max_interval _ (omega arith);
  retry_max_elapsed_time = or_default-IsPositive c.retry_max_elapsed_time _ (omega arith);
}

-- The defaults change no setting of a complete configuration.
pub with_defaults_kept : (c : Config) → IsComplete c → with_defaults c ≡ c
unfolding with_defaults
with_defaults_kept c v = rw (
  or_default_kept c.shards _ v.shards,
  or_default_kept c.queue_size _ v.queue_size,
  or_default_kept c.queue_bytes _ v.queue_bytes,
  or_default_kept c.request_timeout _ v.request_timeout,
  or_default_kept c.retry_initial_interval _ v.retry_initial_interval,
  or_default_kept c.retry_max_interval _ v.retry_max_interval,
  or_default_kept c.retry_max_elapsed_time _ v.retry_max_elapsed_time,
)

drop_byte-head : (b : ℕ) (s t : Bytes) → drop_byte b s ≢ b ∷ t
unfolding drop_byte
drop_byte-head b [] t e = cc
drop_byte-head b (c ∷ s) t e = ground (arith, drop_byte-head b s t)

trim_slashes-end : (raw t : Bytes) → trim_slashes raw ≢ t ++ b'/' ∷ []
unfolding trim_slashes
trim_slashes-end raw t e = drop_byte-head b'/' (reverse raw) (reverse t) turned
  where
    turned : drop_byte b'/' (reverse raw) ≡ b'/' ∷ reverse t
    turned = sym (reverse-reverse _) ∙ ap reverse e ∙ reverse-append t (b'/' ∷ [])

-- What an accepted URL satisfies, in terms of the parts that `url.Parse` found in it.
pub record IsUsable (raw base scheme : Bytes) (u : Url) : Type 0 where
  pub http : (scheme ≡ codes "http") ⊎ (scheme ≡ codes "https")
  pub from_url : scheme ≡ u.scheme
  pub host : u.host ≢ []
  pub no_user : u.has_user ≡ false
  pub no_query : u.raw_query ≡ []
  pub no_mark : u.force_query ≡ false
  pub no_fragment : u.fragment ≡ []
  pub no_hash : contains b'#' raw ≡ false
  pub trimmed : base ≡ trim_slashes raw
  pub no_slash : (t : Bytes) → base ≢ t ++ b'/' ∷ []

check_parts_sound :
    (raw base scheme : Bytes) (u : Url)
    → check_parts raw (some u) ≡ usable base scheme
    → IsUsable raw base scheme u
unfolding check_parts
check_parts_sound raw base scheme u e = record {
  http =
      ground
        (arith, bytes_eq_sound u.scheme (codes "http"), bytes_eq_sound u.scheme (codes "https"));
  from_url = ground arith;
  host = is_empty_complete u.host (ground arith);
  no_user = ground arith;
  no_query = is_empty_sound u.raw_query (ground arith);
  no_mark = ground arith;
  no_fragment = is_empty_sound u.fragment (ground arith);
  no_hash = ground arith;
  trimmed = trimmed;
  no_slash = λ t. rw trimmed (trim_slashes-end raw t);
}
  where
    trimmed : base ≡ trim_slashes raw
    trimmed = ground arith

-- A URL that is accepted is an http or https URL with a host and without user info, query or
-- fragment, as `url.Parse` splits it; the base is the text without its trailing slashes.
pub validate_url_sound :
    (parse : Bytes → Option Url) (raw base scheme : Bytes)
    → validate_url parse raw ≡ usable base scheme
    → (u : Url) × (parse raw ≡ some u) × IsUsable raw base scheme u
unfolding validate_url
validate_url_sound parse raw base scheme e = elim (Option-cases (parse raw)) [
  | inl q ↦ absurd (ground arith)
  | inr (u, q) ↦ (u, q, check_parts_sound raw base scheme u (ground arith))
]
