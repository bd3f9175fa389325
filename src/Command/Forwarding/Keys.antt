-- ===== src/Command/Forwarding/Keys.antt =====
-- Which variables give a key for the backend, and what the error of the others says.
use yukon_collector.Base.{
  ℕ, ◌≡◌, ◌≢◌, refl, ap, ◌∙◌, ◌⊎◌, inl, inr, Bool-cases, Option-cases, true, Option, some, List, [],
  ◌∷◌, All, Bytes, is_empty, is_empty_sound, is_empty_complete, arith,
}
use yukon_collector.Text.Space.{trim_space, trim_space-nil}
use yukon_collector.TokenFile.{Opened, tokens_of, load}
use yukon_collector.TokenFile.Watch.{fresh_file, open_file-cases}
use yukon_collector.Command.Settings.{
  SettingError, only_spaces, both_set, set_without, bad_file, control_character,
}
use yukon_collector.Command.Settings.Outcome.{Yields}
use yukon_collector.Command.ForwardKey.{
  key, unset, store_key, check_header_value, check_forward_keys,
}
use yukon_collector.Command.ForwardKey.Usable.{IsHeaderByte, check_header_value-none, one_key}
use yukon_collector.Command.Forwarding.{
  forward_url, forward_auth_token, forward_auth_token_file, KeySource, no_key, static_token,
  key_file, resolve_key,
}

module _ (files : Bytes → Option Opened) (url raw path : Bytes) where
  -- A source that the variables give: it has a key that can be sent, and there is a backend for it.
  abbrev pub IsSource : KeySource → Type 0
  IsSource no_key = (raw ≡ []) × (path ≡ [])
  IsSource (static_token k) =
      (url ≢ []) × (path ≡ []) × (k ≡ trim_space raw) × (k ≢ []) × All IsHeaderByte k
  IsSource (key_file f) =
      (url ≢ [])
      × (raw ≡ [])
      × (path ≢ [])
      × ((k : Bytes) × (load check_forward_keys (files path) ≡ tokens_of (k ∷ []))
          × (f.applied ≡ key k)
          × All IsHeaderByte k)

  -- What is wrong with the variables, and the error for it.
  pub data IsKeyFault (e : SettingError) : Type 0 where
    no_backend :
        url ≡ []
        → (raw ≢ []) ⊎ (path ≢ [])
        → e ≡ set_without forward_auth_token forward_url
        → IsKeyFault e
    two_keys :
        raw ≢ []
        → path ≢ []
        → e ≡ both_set forward_auth_token forward_auth_token_file
        → IsKeyFault e
    spaces : raw ≢ [] → trim_space raw ≡ [] → e ≡ only_spaces forward_auth_token → IsKeyFault e
    unusable_file :
        path ≢ []
        → ((ts : List Bytes) → load check_forward_keys (files path) ≢ tokens_of ts)
        → e ≡ bad_file forward_auth_token_file
        → IsKeyFault e
    unsendable :
        (i : ℕ)
        → check_header_value (trim_space raw) ≡ some i
        → e ≡ control_character forward_auth_token i
        → IsKeyFault e

  pub resolve_key_lem : Yields IsSource IsKeyFault (resolve_key files url raw path)
  unfolding resolve_key is_empty
  resolve_key_lem = elim (Bool-cases (is_empty raw)) [
    | inl r ↦ elim (Bool-cases (is_empty path)) [
      | inl p ↦
          let blank : is_empty (trim_space raw) ≡ true =
            ap (λ s. is_empty (trim_space s)) (is_empty_sound raw r) ∙ ap is_empty trim_space-nil in
          inl (no_key, ground arith, (is_empty_sound _ r, is_empty_sound _ p))
      | inr p ↦ elim (Bool-cases (is_empty url)) [
        | inl u ↦ inr (
          _,
          rw (r, p, u) refl,
          no_backend (is_empty_sound _ u) (inr (is_empty_complete _ p)) refl,
        )
        | inr u ↦
            elim (open_file-cases check_forward_keys (λ ts k. store_key ts) (files path) unset) [
              | inl (ts, l, c, e) ↦
                  let (k, o, clean) = one_key ts c in
                  inl (
                    key_file (fresh_file check_forward_keys (λ ts k. store_key ts) unset ts),
                    rw (r, p, u, e) refl,
                    (
                      is_empty_complete _ u,
                      is_empty_sound _ r,
                      is_empty_complete _ p,
                      (k, l ∙ ap tokens_of o, ap store_key o, clean),
                    ),
                  )
              | inr (n, e) ↦
                  inr (_, rw (r, p, u, e) refl, unusable_file (is_empty_complete _ p) n refl)
            ]
      ]
    ]
    | inr r ↦ elim (Bool-cases (is_empty url)) [
      | inl u ↦
          inr
            (_, rw (r, u) refl, no_backend (is_empty_sound _ u) (inl (is_empty_complete _ r)) refl)
      | inr u ↦ elim (Bool-cases (is_empty path)) [
        | inr p ↦
            inr
              (_, rw (r, p, u) refl, two_keys (is_empty_complete _ r) (is_empty_complete _ p) refl)
        | inl p ↦ elim (Bool-cases (is_empty (trim_space raw))) [
          | inl t ↦
              inr
                (_, rw (r, p, u, t) refl, spaces (is_empty_complete _ r) (is_empty_sound _ t) refl)
          | inr t ↦ elim (Option-cases (check_header_value (trim_space raw))) [
            | inl c ↦ inl (
              static_token (trim_space raw),
              rw (r, p, u, t, c) refl,
              (
                is_empty_complete _ u,
                is_empty_sound _ p,
                refl,
                is_empty_complete _ t,
                check_header_value-none _ c,
              ),
            )
            | inr (i, c) ↦ inr (
              control_character forward_auth_token i,
              rw (r, p, u, t, c) refl,
              unsendable i c refl,
            )
          ]
        ]
      ]
    ]
  ]
