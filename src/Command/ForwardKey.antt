-- ===== src/Command/ForwardKey.antt =====
-- cmd/otherlode-collector/main.go: the key for the backend, which a token file replaces.
pub mod Usable
use yukon_collector.Base.{
  ℕ, suc, ◌≡◌, refl, Bool, ◌||◌, Option, none, some, List, [], ◌∷◌, Bytes, codes, ltb, ◌==◌,
  if◌then◌else◌,
}
use yukon_collector.TokenFile.{LoadError, control_byte, exactly_one}

-- `panicked` is the state after the panic of an index that is out of range.
pub data ForwardKey : Type 0 where
  unset panicked : ForwardKey
  key : Bytes → ForwardKey

-- `none` is a panic.
abbrev pub token : ForwardKey → Option Bytes
token unset = some []
token panicked = none
token (key k) = some k

abbrev pub store_key : List Bytes → ForwardKey
store_key [] = panicked
store_key (k ∷ ks) = key k

-- The first control character at or behind position `i`.
unfoldable pub control_at : ℕ → Bytes → Option ℕ
control_at i [] = none
control_at i (c ∷ s) =
    let rest = control_at (suc i) s in if ltb c 0x20 || c == 0x7F then some i else rest

unfoldable pub check_header_value : Bytes → Option ℕ
check_header_value k = control_at 0 k

abbrev control_error : Option ℕ → Option LoadError
control_error none = none
control_error (some i) = some (control_byte i)

-- The first token is there, since there is exactly one.
abbrev check_first : List Bytes → Option LoadError → Option LoadError
check_first tokens (some e) = some e
check_first [] none = none
check_first (k ∷ ks) none = control_error (check_header_value k)

unfoldable pub check_forward_keys : List Bytes → Option LoadError
check_forward_keys tokens = check_first tokens (exactly_one tokens)

check_header_value_test : check_header_value (codes "ab\tc") ≡ some 2
unfolding check_header_value control_at
check_header_value_test = refl
