-- ===== src/Command/Tokens.antt =====
-- cmd/otherlode-collector/main.go: the tokens that the ingest routes require. What the system gives
-- for the path of a token file is the parameter `files`, and SHA-256 is a parameter.
pub mod Choice
use yukon_collector.Base.{
  ℕ, suc, ◌+◌, Bool, true, false, not, ◌&&◌, Option, none, some, List, [], ◌∷◌, Bytes, codes,
  is_empty, length, if◌then◌else◌,
}
use yukon_collector.Text.Space.{trim_space}
use yukon_collector.Text.Parts.{split}
use yukon_collector.Auth.{TokenSet, empty_set, new_token_set, replace}
use yukon_collector.TokenFile.{Opened, File, at_least_one, open_file}
use yukon_collector.Command.Settings.{
  SettingError, both_set, empty_entry, bad_file, no_auth, Result, ok, err, ◌>>=◌, Getenv,
  parse_bool,
}

abbrev pub auth_token_variable : Bytes
auth_token_variable = codes "OTHERLODE_COLLECTOR_AUTH_TOKEN"

abbrev pub auth_token_file : Bytes
auth_token_file = codes "OTHERLODE_COLLECTOR_AUTH_TOKEN_FILE"

abbrev pub insecure_no_auth : Bytes
insecure_no_auth = codes "OTHERLODE_COLLECTOR_INSECURE_NO_AUTH"

-- The loop over the entries, the first of which is number `i`.
unfoldable pub trim_entries : (name : Bytes) (i count : ℕ) → List Bytes → Result (List Bytes)
trim_entries name i count [] = ok []
trim_entries name i count (part ∷ parts) =
    let rest = trim_entries name (suc i) count parts >>= λ tokens. ok (trim_space part ∷ tokens) in
    if is_empty (trim_space part) then err (empty_entry name i count) else rest

unfoldable pub parse_token_list : Bytes → Result (List Bytes)
parse_token_list raw =
    let parts = split b',' raw in trim_entries auth_token_variable 1 (length parts) parts

-- Without a set the routes are open to all.
pub data AuthChoice : Type 0 where
  open_to_all : AuthChoice
  fixed : TokenSet → AuthChoice
  from_file : File TokenSet → AuthChoice

abbrev insecure : Option Bool → Result AuthChoice
insecure (some true) = ok open_to_all
insecure (some false) = err no_auth
insecure none = err no_auth

module _ (sha256 : Bytes → Bytes) (files : Bytes → Option Opened) where
  abbrev opened_tokens : Option (File TokenSet) → Result AuthChoice
  opened_tokens none = err (bad_file auth_token_file)
  opened_tokens (some file) = ok (from_file file)

  unfoldable pub resolve_auth_tokens : Getenv → Result AuthChoice
  resolve_auth_tokens getenv =
      let raw = getenv auth_token_variable in
      let path = getenv auth_token_file in
      if not (is_empty raw) && not (is_empty path)
      then err (both_set auth_token_variable auth_token_file)
      else if not (is_empty path)
      then opened_tokens (open_file at_least_one (replace sha256) (files path) empty_set)
      else if not (is_empty raw)
      then (do tokens ← parse_token_list raw; ok (fixed (new_token_set sha256 tokens)))
      else insecure (parse_bool (getenv insecure_no_auth))
