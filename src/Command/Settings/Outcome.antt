-- ===== src/Command/Settings/Outcome.antt =====
-- What a chain of settings yields, and what one number does.
use yukon_collector.Base.{
  ◌≡◌, ◌≢◌, refl, ◌⊎◌, inl, inr, Bool-cases, Option-cases, true, false, Option, none, some, [],
  Bytes, is_empty, is_empty_sound, is_empty_complete, if◌then◌else◌, ℤ, pos, le_int,
}
use yukon_collector.Text.Decimal.{atoi}
use yukon_collector.Command.Settings.{
  SettingError, unparsable, not_positive, Result, ok, err, ◌>>=◌, Getenv, positive_number,
  positive_int_env, positive_duration_env,
}

-- A value with a property, or an error with another.
abbrev pub Yields : {A : Type 0} → (A → Type 0) → (SettingError → Type 0) → Result A → Type 0
Yields {A} P Q r = ((a : A) × (r ≡ ok a) × P a) ⊎ ((e : SettingError) × (r ≡ err e) × Q e)

pub >>=-Yields :
    {A B : Type 0} (P : A → Type 0) (P' : B → Type 0) (Q : SettingError → Type 0) (m : Result A)
    (f : A → Result B)
    → Yields P Q m
    → ((a : A) → P a → Yields P' Q (f a))
    → Yields P' Q (m >>= f)
>>=-Yields P P' Q m f (inl (a, e, p)) next = rw e (next a p)
>>=-Yields P P' Q m f (inr (x, e, q)) next = rw e (inr (x, refl, q))

-- The variable is not set and the value 0, or it holds the positive value.
abbrev pub IsSetting : (Bytes → Option ℤ) → Bytes → ℤ → Type 0
IsSetting reads raw v =
    ((raw ≡ []) × (v ≡ pos 0)) ⊎ ((raw ≢ []) × (reads raw ≡ some v) × (le_int v (pos 0) ≡ false))

-- The variable holds no number, or one that is not positive, and the error says so.
pub record IsBadNumber (reads : Bytes → Option ℤ) (getenv : Getenv) (name : Bytes)
    (e : SettingError) : Type 0 where
  pub present : getenv name ≢ []
  pub wrong :
      ((reads (getenv name) ≡ none) × (e ≡ unparsable name))
      ⊎ ((v : ℤ) × (reads (getenv name) ≡ some v)
          × (le_int v (pos 0) ≡ true)
          × (e ≡ not_positive name))

number_lem :
    (reads : Bytes → Option ℤ) (getenv : Getenv) (name : Bytes)
    → Yields
        (IsSetting reads (getenv name))
        (IsBadNumber reads getenv name)
        (if is_empty (getenv name) then ok (pos 0) else positive_number name (reads (getenv name)))
number_lem reads getenv name = elim (Bool-cases (is_empty (getenv name))) [
  | inl q ↦ inl (pos 0, rw q refl, inl (is_empty_sound _ q, refl))
  | inr q ↦ elim (Option-cases (reads (getenv name))) [
    | inl e ↦ inr (
      unparsable name,
      rw (q, e) refl,
      record { present = is_empty_complete _ q; wrong = inl (e, refl) },
    )
    | inr (v, e) ↦ elim (Bool-cases (le_int v (pos 0))) [
      | inl n ↦ inr (
        not_positive name,
        rw (q, e, n) refl,
        record { present = is_empty_complete _ q; wrong = inr (v, e, n, refl) },
      )
      | inr n ↦ inl (v, rw (q, e, n) refl, inr (is_empty_complete _ q, e, n))
    ]
  ]
]

pub positive_int_env_lem :
    (getenv : Getenv) (name : Bytes)
    → Yields
        (IsSetting atoi (getenv name))
        (IsBadNumber atoi getenv name)
        (positive_int_env getenv name)
unfolding positive_int_env
positive_int_env_lem getenv name = number_lem atoi getenv name

pub positive_duration_env_lem :
    (parse_duration : Bytes → Option ℤ) (getenv : Getenv) (name : Bytes)
    → Yields
        (IsSetting parse_duration (getenv name))
        (IsBadNumber parse_duration getenv name)
        (positive_duration_env parse_duration getenv name)
unfolding positive_duration_env
positive_duration_env_lem parse_duration getenv name = number_lem parse_duration getenv name

pub Yields-weaken :
    {A : Type 0} (P : A → Type 0) (Q Q' : SettingError → Type 0) (m : Result A)
    → ((e : SettingError) → Q e → Q' e)
    → Yields P Q m
    → Yields P Q' m
Yields-weaken P Q Q' m f (inl h) = inl h
Yields-weaken P Q Q' m f (inr (e, h, q)) = inr (e, h, f e q)
