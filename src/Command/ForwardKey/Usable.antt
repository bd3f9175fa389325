-- ===== src/Command/ForwardKey/Usable.antt =====
-- The key of a file that is read again, as a header value.
use yukon_collector.Base.{
  ℕ, suc, ◌≡◌, ◌≢◌, ◌≤◌, refl, ap, ◌∙◌, inl, inr, Bool-cases, ◌||◌, Option, none, some, List, [],
  ◌∷◌, All, Bytes, ltb, ◌==◌, arith,
}
use yukon_collector.Metrics.Counters.{forward}
use yukon_collector.TokenFile.{Opened, tokens_of, File, load, exactly_one, open_file, watch}
use yukon_collector.TokenFile.Watch.{latest, loads, apply_changes-overwrite, watch_opened}
use yukon_collector.Command.ForwardKey.{
  ForwardKey, unset, token, store_key, control_at, check_header_value, check_forward_keys,
}

-- No byte that an HTTP header value cannot carry.
abbrev pub IsHeaderByte : ℕ → Type 0
IsHeaderByte c = (0x20 ≤ c) × (c ≢ 0x7F)

control_at-none : (i : ℕ) (s : Bytes) → control_at i s ≡ none → All IsHeaderByte s
unfolding control_at
control_at-none i [] h = _
control_at-none i (c ∷ s) h = elim (Bool-cases (ltb c 0x20 || c == 0x7F)) [
  | inl q ↦ absurd (ground arith)
  | inr q ↦ ((ground arith, ground arith), control_at-none (suc i) s (ground arith))
]

pub check_header_value-none : (s : Bytes) → check_header_value s ≡ none → All IsHeaderByte s
unfolding check_header_value
check_header_value-none s h = control_at-none 0 s h

pub one_key :
    (ts : List Bytes)
    → check_forward_keys ts ≡ none
    → (k : Bytes) × (ts ≡ k ∷ []) × All IsHeaderByte k
unfolding check_forward_keys exactly_one
one_key [] h = absurd (ground arith)
one_key (k ∷ []) h = (k, refl, check_header_value-none k (ground arith))
one_key (k ∷ j ∷ ts) h = absurd (ground arith)

-- Once the file of the backend's key has opened, after any number of re-reads a request finds a key,
-- without a panic: it is the only token of the last good read and has no control character.
pub forward_key_lem :
    (g : Option Opened) (f : File ForwardKey) (fs : List (Option Opened))
    → open_file check_forward_keys (λ ts k. store_key ts) g unset ≡ some f
    → (ts : List Bytes) × (k : Bytes) × (load check_forward_keys g ≡ tokens_of ts)
      × (latest ts (loads check_forward_keys fs) ≡ k ∷ [])
      × (token (watch forward check_forward_keys (λ ts k. store_key ts) f fs).applied ≡ some k)
      × All IsHeaderByte k
forward_key_lem g f fs h =
    let (ts, l, e, passes) =
      watch_opened forward check_forward_keys (λ ts k. store_key ts) g unset f fs h in
    let (k, one, clean) = one_key (latest ts (loads check_forward_keys fs)) passes in
    (
      ts,
      k,
      l,
      one,
      ap (λ w. token w.applied) e
          ∙ ap token (apply_changes-overwrite store_key ts (loads check_forward_keys fs))
          ∙ ap (λ us. token (store_key us)) one,
      clean,
    )
