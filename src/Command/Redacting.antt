-- ===== src/Command/Redacting.antt =====
-- cmd/otherlode-collector/main.go: the setting of the redaction. `regexp.Compile` is a parameter: a
-- compiled pattern is what its `MatchString` computes, and `none` is the error.
pub mod Blocked
use yukon_collector.Base.{
  ℕ, suc, Bool, true, false, Option, none, some, List, [], ◌∷◌, Bytes, codes, is_empty, ◌==◌,
  if◌then◌else◌,
}
use yukon_collector.Text.Space.{trim_space}
use yukon_collector.Text.Parts.{split}
use yukon_collector.Processor.Redaction.{RedactionConfig}
use yukon_collector.Command.Settings.{bad_pattern, unparsable, Result, ok, err, ◌>>=◌, parse_bool}

abbrev pub redact_blocked_values : Bytes
redact_blocked_values = codes "OTHERLODE_COLLECTOR_REDACT_BLOCKED_VALUES"

abbrev pub redact_all_literals : Bytes
redact_all_literals = codes "OTHERLODE_COLLECTOR_REDACT_ALL_LITERALS"

-- `strings.TrimSuffix(line, "\r")`.
unfoldable pub trim_return : Bytes → Bytes
trim_return [] = []
trim_return (c ∷ []) = if c == 13 then [] else c ∷ []
trim_return (c ∷ d ∷ s) = c ∷ trim_return (d ∷ s)

abbrev read_all : Option Bool → Result Bool
read_all none = err (unparsable redact_all_literals)
read_all (some all) = ok all

module _ (compile : Bytes → Option (Bytes → Bool)) where
  abbrev add_pattern :
      ℕ → Option (Bytes → Bool) → Result (List (Bytes → Bool)) → Result (List (Bytes → Bool))
  add_pattern i none rest = err (bad_pattern redact_blocked_values i)
  add_pattern i (some re) rest = rest >>= λ res. ok (re ∷ res)

  -- The loop over the lines, the first of which is number `i`.
  unfoldable pub compile_lines : (i : ℕ) → List Bytes → Result (List (Bytes → Bool))
  compile_lines i [] = ok []
  compile_lines i (line ∷ lines) =
      let rest = compile_lines (suc i) lines in
      if is_empty (trim_space (trim_return line))
      then rest
      else add_pattern i (compile (trim_return line)) rest

  unfoldable pub resolve_redaction : (blocked_raw all_literals_raw : Bytes) → Result RedactionConfig
  resolve_redaction blocked_raw all_literals_raw = do
    blocked ← compile_lines 1 (split b'\n' blocked_raw)
    all ← if is_empty all_literals_raw then ok false else read_all (parse_bool all_literals_raw)
    ok (record { blocked_values = blocked; all_literals = all })
