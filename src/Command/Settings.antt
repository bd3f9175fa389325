-- ===== src/Command/Settings.antt =====
-- cmd/otherlode-collector/main.go: the errors of the settings, and the readers of one variable that
-- the others share. The environment is the function `getenv`; an unset variable reads as empty.
-- `time.ParseDuration` is a parameter, in nanoseconds; `none` is its error.
pub mod Outcome
use yukon_collector.Base.{
  ℕ, Bool, true, false, ◌||◌, ◌≡◌, refl, Option, none, some, [], Bytes, codes, bytes_eq, is_empty,
  if◌then◌else◌, ℤ, pos, le_int,
}
use yukon_collector.Text.Decimal.{atoi}
use yukon_collector.Forward.Config.{UrlError}

-- An error names the variable that it is about.
pub data SettingError : Type 0 where
  unparsable not_positive not_utf8 only_spaces bad_file : (name : Bytes) → SettingError
  both_set : (name other : Bytes) → SettingError
  set_without : (name missing : Bytes) → SettingError
  empty_entry : (name : Bytes) (position count : ℕ) → SettingError
  control_character : (name : Bytes) (position : ℕ) → SettingError
  bad_pattern : (name : Bytes) (line : ℕ) → SettingError
  out_of_range : (name : Bytes) → SettingError
  bad_backend : UrlError → SettingError
  no_auth : SettingError

pub data Result (A : Type 0) : Type 0 where
  ok : A → Result A
  err : SettingError → Result A

infixl 5 ◌>>=◌
abbrev pub ◌>>=◌ : {A B : Type 0} → Result A → (A → Result B) → Result B
ok a >>= f = f a
err e >>= f = err e

abbrev pub Getenv : Type 0
Getenv = Bytes → Bytes

-- `strconv.ParseBool`.
unfoldable pub parse_bool : Bytes → Option Bool
parse_bool s =
    if bytes_eq s (codes "1")
      || bytes_eq s (codes "t")
      || bytes_eq s (codes "T")
      || bytes_eq s (codes "true")
      || bytes_eq s (codes "TRUE")
      || bytes_eq s (codes "True")
    then some true
    else if bytes_eq s (codes "0")
        || bytes_eq s (codes "f")
        || bytes_eq s (codes "F")
        || bytes_eq s (codes "false")
        || bytes_eq s (codes "FALSE")
        || bytes_eq s (codes "False")
    then some false
    else none

-- A number that was read, or the error of its reader.
abbrev pub positive_number : Bytes → Option ℤ → Result ℤ
positive_number name none = err (unparsable name)
positive_number name (some n) = if le_int n (pos 0) then err (not_positive name) else ok n

unfoldable pub positive_int_env : Getenv → Bytes → Result ℤ
positive_int_env getenv name =
    if is_empty (getenv name) then ok (pos 0) else positive_number name (atoi (getenv name))

unfoldable pub positive_duration_env : (Bytes → Option ℤ) → Getenv → Bytes → Result ℤ
positive_duration_env parse_duration getenv name =
    if is_empty (getenv name)
    then ok (pos 0)
    else positive_number name (parse_duration (getenv name))

parse_bool_test : parse_bool (codes "True") ≡ some true
unfolding parse_bool bytes_eq
parse_bool_test = refl
