-- ===== src/TokenFile.antt =====
-- internal/tokenfile/tokenfile.go: the tokens of a file, and the file that is read again on a fixed
-- interval. What the system gives for the path is a parameter of each read. The log lines are left
-- out.
pub mod Parse
pub mod Watch
pub mod Tests
use yukon_collector.Base.{
  ℕ, ◌+◌, ◌^◌, Bool, true, false, Option, none, some, List, [], ◌∷◌, ◌++◌, Bytes, codes, bytes_eq,
  is_empty, length, take, ltb, ◌==◌, ◌||◌, if◌then◌else◌,
}
use yukon_collector.Text.Space.{trim_space}
use yukon_collector.Text.Parts.{split}
use yukon_collector.Metrics.Counters.{Count, TokenFileLabel, token_reload_failures}

-- `bytes.TrimPrefix(data, utf8BOM)`.
unfoldable pub trim_bom : Bytes → Bytes
trim_bom [] = []
trim_bom (a ∷ []) = a ∷ []
trim_bom (a ∷ b ∷ []) = a ∷ b ∷ []
trim_bom (a ∷ b ∷ c ∷ s) =
    if bytes_eq (a ∷ b ∷ c ∷ []) (0xEF ∷ 0xBB ∷ 0xBF ∷ []) then s else a ∷ b ∷ c ∷ s

-- `strings.HasPrefix(line, "#")`.
unfoldable pub is_comment : Bytes → Bool
is_comment [] = false
is_comment (c ∷ s) = c == b'#'

unfoldable pub collect : List Bytes → List Bytes
collect [] = []
collect (line ∷ lines) =
    let token = trim_space line in
    let rest = collect lines in if is_empty token || is_comment token then rest else token ∷ rest

unfoldable pub parse : Bytes → List Bytes
parse text = collect (split b'\n' (trim_bom text))

abbrev pub max_file_bytes : ℕ
max_file_bytes = 2 ^ 20

-- An opened path: `none` for a failing `Stat`, or whether it is a regular file; and what can be read
-- of it, or `none` if reading fails.
pub record Opened : Type 0 where
  pub is_regular : Option Bool
  pub content : Option Bytes

pub data LoadError : Type 0 where
  not-IsOpened no_info not_regular not_read too_large no_token : LoadError
  not_exactly_one : ℕ → LoadError
  control_byte : ℕ → LoadError

pub data Loaded : Type 0 where
  tokens_of : List Bytes → Loaded
  failed : LoadError → Loaded

-- `io.LimitReader` stops one byte behind the limit.
abbrev read_content : Option Bytes → Loaded
read_content none = failed not_read
read_content (some content) =
    let text = take (max_file_bytes + 1) content in
    if ltb max_file_bytes (length text) then failed too_large else tokens_of (parse text)

abbrev read_opened : Opened → Option Bool → Loaded
read_opened f none = failed no_info
read_opened f (some false) = failed not_regular
read_opened f (some true) = read_content f.content

unfoldable pub read : Option Opened → Loaded
read none = failed not-IsOpened
read (some f) = read_opened f f.is_regular

unfoldable pub at_least_one : List Bytes → Option LoadError
at_least_one tokens = if length tokens == 0 then some no_token else none

unfoldable pub exactly_one : List Bytes → Option LoadError
exactly_one tokens = if length tokens == 1 then none else some (not_exactly_one (length tokens))

unfoldable pub tokens_eq : List Bytes → List Bytes → Bool
tokens_eq [] [] = true
tokens_eq (a ∷ s) (b ∷ t) = if bytes_eq a b then tokens_eq s t else false
tokens_eq [] (b ∷ t) = false
tokens_eq (a ∷ s) [] = false

-- The state of a File, with the state that its apply function changes and the counts made so far.
pub record File (S : Type 0) : Type 0 where
  pub last : List Bytes
  pub failing : Bool
  pub applied : S
  pub counts : List Count

module _ (check : List Bytes → Option LoadError) where
  abbrev checked : List Bytes → Option LoadError → Loaded
  checked tokens (some e) = failed e
  checked tokens none = tokens_of tokens

  abbrev pub checked_read : Loaded → Loaded
  checked_read (failed e) = failed e
  checked_read (tokens_of tokens) = checked tokens (check tokens)

  unfoldable pub load : Option Opened → Loaded
  load f = checked_read (read f)

module _ {S : Type 0} (check : List Bytes → Option LoadError) (apply : List Bytes → S → S) where
  abbrev pub opened : S → Loaded → Option (File S)
  opened s (failed e) = none
  opened s (tokens_of tokens) =
      some (record { last = tokens; failing = false; applied = apply tokens s; counts = [] })

  -- `none` is the error, with nothing applied.
  unfoldable pub open_file : Option Opened → S → Option (File S)
  open_file f s = opened s (load check f)

module _ {S : Type 0} (label : TokenFileLabel) (check : List Bytes → Option LoadError)
    (apply : List Bytes → S → S) where
  abbrev pub reloaded : File S → Loaded → File S
  reloaded f (failed e) = record f {
    failing = true;
    counts = f.counts ++ token_reload_failures 1 label ∷ [];
  }
  reloaded f (tokens_of tokens) =
      if tokens_eq tokens f.last
      then record f { failing = false }
      else record f { failing = false; applied = apply tokens f.applied; last = tokens }

  unfoldable pub reload : File S → Option Opened → File S
  reload f now = reloaded f (load check now)

  -- The ticks of a Watch, each with what the system gives for the path.
  unfoldable pub ticks : File S → List (Option Opened) → File S
  ticks f [] = f
  ticks f (now ∷ later) = ticks (reload f now) later

  unfoldable pub watch : File S → List (Option Opened) → File S
  watch f reads = ticks (record f { counts = f.counts ++ token_reload_failures 0 label ∷ [] }) reads
