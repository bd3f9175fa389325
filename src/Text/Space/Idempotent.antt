-- ===== src/Text/Space/Idempotent.antt =====
-- `strings.TrimSpace` of a text that it trimmed.
use mathlib.Core.List.{reverse, reverse-reverse, reverse-append}
use yukon_collector.Base.{
  ℕ, zero, suc, ◌-◌, ◌≡◌, refl, sym, ap, ◌∙◌, ◌⊎◌, inl, inr, Bool-cases, [], ◌∷◌, ◌++◌, Bytes, ◌==◌,
  ==_iff, arith,
}
use yukon_collector.Text.Space.{front_width, back_width, skip, trim_left, trim_right, trim_space}

-- A text at which no character is dropped.
abbrev Starts : (Bytes → ℕ) → Bytes → Type 0
Starts width s = (s ≡ []) ⊎ (width s ≡ 0)

skip-Starts : (width : Bytes → ℕ) (k : ℕ) (s : Bytes) → Starts width (skip width k s)
unfolding skip
skip-Starts width k [] = inl refl
skip-Starts width zero (c ∷ s) = elim (Bool-cases (width (c ∷ s) == 0)) [
  | inl e ↦ rw e (inr ((==_iff _ _).0 e))
  | inr e ↦ rw e (skip-Starts width (width (c ∷ s) - 1) s)
]
skip-Starts width (suc k) (c ∷ s) = skip-Starts width k s

skip_same : (width : Bytes → ℕ) (s : Bytes) → Starts width s → skip width 0 s ≡ s
unfolding skip
skip_same width [] h = refl
skip_same width (c ∷ s) (inl e) = absurd (cc e)
skip_same width (c ∷ s) (inr e) = rw ((==_iff _ _).1 e) refl

-- What is left is the end of the text.
skip_suffix :
    (width : Bytes → ℕ) (k : ℕ) (s : Bytes) → (dropped : Bytes) × (s ≡ dropped ++ skip width k s)
unfolding skip
skip_suffix width k [] = ([], refl)
skip_suffix width zero (c ∷ s) = elim (Bool-cases (width (c ∷ s) == 0)) [
  | inl e ↦ ([], rw e refl)
  | inr e ↦
      let (d, q) = skip_suffix width (width (c ∷ s) - 1) s in (c ∷ d, rw e (ap (λ t. c ∷ t) q))
]
skip_suffix width (suc k) (c ∷ s) = let (d, q) = skip_suffix width k s in (c ∷ d, ap (λ t. c ∷ t) q)

-- A text that starts with no space has no prefix that does.
front_width-prefix : (p q : Bytes) → front_width (p ++ q) ≡ 0 → front_width p ≡ 0
unfolding front_width
front_width-prefix [] q h = refl
front_width-prefix (a ∷ []) [] h = h
front_width-prefix (a ∷ []) (b ∷ []) h = ground arith
front_width-prefix (a ∷ []) (b ∷ c ∷ q) h = ground arith
front_width-prefix (a ∷ b ∷ []) [] h = h
front_width-prefix (a ∷ b ∷ []) (c ∷ q) h = ground arith
front_width-prefix (a ∷ b ∷ c ∷ p) q h = h

Starts-prefix : (p q : Bytes) → Starts front_width (p ++ q) → Starts front_width p
Starts-prefix [] q h = inl refl
Starts-prefix (a ∷ p) q (inl e) = absurd (cc e)
Starts-prefix (a ∷ p) q (inr e) = inr (front_width-prefix (a ∷ p) q e)

trim_right_prefix : (s : Bytes) → (dropped : Bytes) × (s ≡ trim_right s ++ dropped)
unfolding trim_right
trim_right_prefix s =
    let (d, q) = skip_suffix back_width 0 (reverse s) in
    (reverse d, sym (reverse-reverse s) ∙ ap reverse q ∙ reverse-append d _)

trim_right_same : (s : Bytes) → trim_right (trim_right s) ≡ trim_right s
unfolding trim_right
trim_right_same s =
    rw
      (
        reverse-reverse (skip back_width 0 (reverse s)),
        skip_same back_width _ (skip-Starts back_width 0 (reverse s)),
      )
      refl

pub trim_space_same : (s : Bytes) → trim_space (trim_space s) ≡ trim_space s
unfolding trim_space trim_left
trim_space_same s =
    let u = trim_left s in
    let (d, q) = trim_right_prefix u in
    let start : Starts front_width u = unfold trim_left in skip-Starts front_width 0 s in
    let kept : Starts front_width (trim_right u) =
      Starts-prefix (trim_right u) d (rw (← q) start) in
    ap trim_right (skip_same front_width (trim_right u) kept) ∙ trim_right_same u
