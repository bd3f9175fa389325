-- ===== src/Command/Tests.antt =====
-- The settings at concrete variables. `keep` stands for SHA-256 and keeps the text.
pub mod Serving
pub mod Starting
pub mod Relaying
pub mod Probing
use yukon_collector.Base.{
  ◌≡◌, refl, Bool, false, Option, none, some, List, [], ◌∷◌, All, Bytes, codes, bytes_eq, is_empty,
  if◌then◌else◌, ℤ, pos,
}
use yukon_collector.Metrics.Counters.{forward}
use yukon_collector.TokenFile.{
  Opened, tokens_of, File, load, open_file, watch, read, parse, collect, trim_bom, is_comment,
  exactly_one,
}
use yukon_collector.TokenFile.Watch.{latest, loads}
use yukon_collector.TokenFile.Tests.{file_of, alpha}
use yukon_collector.Text.Space.{trim_space}
use yukon_collector.Text.Parts.{split}
use yukon_collector.Command.Settings.{Getenv}
use yukon_collector.Command.Settings.Outcome.{Yields}
use yukon_collector.Command.Tokens.{
  auth_token_variable, auth_token_file, insecure_no_auth, resolve_auth_tokens,
}
use yukon_collector.Command.Tokens.Choice.{Decides, resolve_auth_tokens_lem}
use yukon_collector.Command.ForwardKey.{
  ForwardKey, key, unset, token, store_key, check_forward_keys, check_header_value, control_at,
}
use yukon_collector.Command.ForwardKey.Usable.{IsHeaderByte, forward_key_lem}
use yukon_collector.Command.Forwarding.{forward_url, resolve_forward_config}
use yukon_collector.Command.Forwarding.Accepted as Forwarding
use yukon_collector.Command.Forwarding.Accepted.{resolve_forward_config_lem}
use yukon_collector.Command.Stamps.{resolve_namespace}
use yukon_collector.Command.Stamps.Identity as Stamps
use yukon_collector.Command.Stamps.Identity.{resolve_namespace_lem}
use yukon_collector.Command.Redacting.{resolve_redaction}
use yukon_collector.Command.Redacting.Blocked as Redacting
use yukon_collector.Command.Redacting.Blocked.{resolve_redaction_lem}

abbrev pub keep : Bytes → Bytes
keep s = s

-- Two tokens, and a backend.
abbrev pub variables : Getenv
variables name =
    if bytes_eq name auth_token_variable
    then codes "alpha, beta"
    else if bytes_eq name forward_url
    then codes "https://backend"
    else []

-- Any path names a file with one token.
abbrev pub files : Bytes → Option Opened
files path = file_of alpha

abbrev pub no_duration : Bytes → Option ℤ
no_duration raw = none

resolve_auth_tokens_lem_example :
    Decides keep files
      (variables auth_token_variable)
      (variables auth_token_file)
      (variables insecure_no_auth)
      (resolve_auth_tokens keep files variables)
resolve_auth_tokens_lem_example = resolve_auth_tokens_lem keep files variables

abbrev opened_file : File ForwardKey
opened_file = record { last = alpha ∷ []; failing = false; applied = key alpha; counts = [] }

opens_key :
    open_file check_forward_keys (λ ts k. store_key ts) (file_of alpha) unset ≡ some opened_file
unfolding open_file load read parse collect split trim_bom bytes_eq is_empty trim_space is_comment
    check_forward_keys exactly_one check_header_value control_at
opens_key = refl

abbrev reads : List (Option Opened)
reads = none ∷ file_of (codes "gamma\n") ∷ []

forward_key_lem_example :
    (ts : List Bytes) × (k : Bytes) × (load check_forward_keys (file_of alpha) ≡ tokens_of ts)
    × (latest ts (loads check_forward_keys reads) ≡ k ∷ [])
    × (token (watch forward check_forward_keys (λ us j. store_key us) opened_file reads).applied
        ≡ some k)
    × All IsHeaderByte k
forward_key_lem_example = forward_key_lem (file_of alpha) opened_file reads opens_key

resolve_forward_config_lem_example :
    Yields
      (Forwarding.IsGiven files no_duration variables)
      (Forwarding.IsFault files no_duration variables)
      (resolve_forward_config files no_duration variables)
resolve_forward_config_lem_example = resolve_forward_config_lem files no_duration variables

resolve_namespace_lem_example :
    Yields
      (Stamps.IsAsked (codes " team ") (codes "upsert"))
      (Stamps.IsFault (codes " team ") (codes "upsert"))
      (resolve_namespace (codes " team ") (codes "upsert"))
resolve_namespace_lem_example = resolve_namespace_lem (codes " team ") (codes "upsert")

-- A pattern is the text that it matches.
abbrev literal : Bytes → Option (Bytes → Bool)
literal pattern = some (λ text. bytes_eq text pattern)

resolve_redaction_lem_example :
    Yields
      (Redacting.IsAsked literal (codes "secret\r\n\nkey") (codes "false"))
      (Redacting.IsFault literal (codes "secret\r\n\nkey") (codes "false"))
      (resolve_redaction literal (codes "secret\r\n\nkey") (codes "false"))
resolve_redaction_lem_example =
    resolve_redaction_lem literal (codes "secret\r\n\nkey") (codes "false")
