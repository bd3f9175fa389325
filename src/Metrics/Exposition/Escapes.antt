-- ===== src/Metrics/Exposition/Escapes.antt =====
-- metrics/metrics.go: the escapes of a label value, and a reader of them.
use yukon_collector.Base.{
  ℕ, ◌≡◌, refl, false, Bool-cases, inl, inr, ==_iff, Option, none, some, [], ◌∷◌, ◌++◌, Bytes, ◌==◌,
  if◌then◌else◌,
}
use yukon_collector.Metrics.Exposition.{escape_label_value}

-- One more byte in front of what was read.
abbrev pub onto : ℕ → Option (Bytes × Bytes) → Option (Bytes × Bytes)
onto c none = none
onto c (some (s, rest)) = some (c ∷ s, rest)

-- A reader of the exposition format behind an opening quote: the value up to the closing quote, and
-- what follows it. It takes no raw line feed and no unknown escape.
pub read_value : Bytes → Option (Bytes × Bytes)
read_value [] = none
read_value (c ∷ []) = if c == b'"' then some ([], []) else none
read_value (c ∷ d ∷ s) =
    let plain = onto c (read_value (d ∷ s)) in
    let slash = onto b'\\' (read_value s) in
    let quote = onto b'"' (read_value s) in
    let feed = onto b'\n' (read_value s) in
    if c == b'"'
    then some ([], d ∷ s)
    else if c == b'\n'
    then none
    else if c == b'\\'
    then (if d == b'\\'
        then slash
        else if d == b'"'
        then quote
        else if d == b'n'
        then feed
        else none)
    else plain

read_value-plain :
    (c : ℕ) (s rest : Bytes)
    → (c == b'"') ≡ false
    → (c == b'\n') ≡ false
    → (c == b'\\') ≡ false
    → read_value (c ∷ (s ++ b'"' ∷ rest)) ≡ onto c (read_value (s ++ b'"' ∷ rest))
unfolding read_value
read_value-plain c [] rest h k l = rw (h, k, l) refl
read_value-plain c (d ∷ s) rest h k l = rw (h, k, l) refl

-- Any value, escaped and quoted, is read back as that value, and the reading ends at the closing quote.
-- So no value can end its own quotes or its line, and no two values are shown alike.
pub read_value-escape_label_value :
    (s rest : Bytes) → read_value (escape_label_value s ++ b'"' ∷ rest) ≡ some (s, rest)
unfolding read_value escape_label_value
read_value-escape_label_value [] [] = refl
read_value-escape_label_value [] (c ∷ rest) = refl
read_value-escape_label_value (c ∷ s) rest = elim (Bool-cases (c == b'\\')) [
  | inl e ↦ rw ((==_iff c _).0 e, read_value-escape_label_value s rest) refl
  | inr e ↦ elim (Bool-cases (c == b'"')) [
    | inl f ↦ rw ((==_iff c _).0 f, read_value-escape_label_value s rest) refl
    | inr f ↦ elim (Bool-cases (c == b'\n')) [
      | inl g ↦ rw ((==_iff c _).0 g, read_value-escape_label_value s rest) refl
      | inr g ↦
          rw
            (
              e,
              f,
              g,
              read_value-plain c (escape_label_value s) rest f g e,
              read_value-escape_label_value s rest,
            )
            refl
    ]
  ]
]
