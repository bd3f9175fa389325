-- ===== src/Text/Parts/RoundTrip.antt =====
-- Joined parts are split into those parts.
use yukon_collector.Base.{
  sym, append_assoc, Bool-cases, inl, inr, ◌==◌, ℕ, ◌≡◌, ◌≢◌, refl, ap, ◌∙◌, List, [], ◌∷◌, ◌++◌,
  All, Bytes, arith, length, ◌≤◌,
}
use yukon_collector.Text.Parts.{onto_first, split, join}

-- The text holds no separator.
abbrev pub IsPart : ℕ → Bytes → Type 0
IsPart sep s = All (λ c. c ≢ sep) s

pub split-part : (sep : ℕ) (p : Bytes) → IsPart sep p → split sep p ≡ p ∷ []
unfolding split
split-part sep [] h = refl
split-part sep (c ∷ p) (n, h) = ground (arith, split-part sep p h)

split-append : (sep : ℕ) (p s : Bytes) → IsPart sep p → split sep (p ++ sep ∷ s) ≡ p ∷ split sep s
unfolding split
split-append sep [] s h = ground arith
split-append sep (c ∷ p) s (n, h) = ground (arith, split-append sep p s h)

pub split-join :
    (sep : ℕ) (p : Bytes) (ps : List Bytes)
    → All (IsPart sep) (p ∷ ps)
    → split sep (join sep (p ∷ ps)) ≡ p ∷ ps
unfolding join
split-join sep p [] (h, _) = split-part sep p h
split-join sep p (q ∷ ps) (h, hs) =
    split-append sep p (join sep (q ∷ ps)) h ∙ ap (λ qs. p ∷ qs) (split-join sep q ps hs)

split-some : (sep : ℕ) (s : Bytes) → (q : Bytes) × (qs : List Bytes) × (split sep s ≡ q ∷ qs)
unfolding split
split-some sep [] = ([], [], refl)
split-some sep (c ∷ s) =
    let (q, qs, e) = split-some sep s in
    elim (Bool-cases (c == sep)) [
      | inl h ↦ ([], split sep s, rw h refl)
      | inr h ↦ (c ∷ q, qs, rw (h, e) refl)
    ]

-- A separator in front of one last part.
pub split-last :
    (sep : ℕ) (s p : Bytes) → IsPart sep p → split sep (s ++ sep ∷ p) ≡ split sep s ++ p ∷ []
unfolding split
split-last sep [] p h = ground (arith, split-part sep p h)
split-last sep (c ∷ s) p h =
    let (q, qs, e) = split-some sep s in
    elim (Bool-cases (c == sep)) [
      | inl k ↦ rw (k, split-last sep s p h) refl
      | inr k ↦ rw (k, split-last sep s p h, e) refl
    ]

pub join-last :
    (sep : ℕ) (l : Bytes) (ls : List Bytes) (p : Bytes)
    → join sep ((l ∷ ls) ++ p ∷ []) ≡ join sep (l ∷ ls) ++ sep ∷ p
unfolding join
join-last sep l [] p = refl
join-last sep l (m ∷ ls) p =
    ap (λ s. l ++ sep ∷ s) (join-last sep m ls p)
    ∙ sym (append_assoc l (sep ∷ join sep (m ∷ ls)) (sep ∷ p))

pub length-onto_first : (c : ℕ) (ps : List Bytes) → length ps ≤ length (onto_first c ps)
length-onto_first c [] = omega arith
length-onto_first c (p ∷ ps) = omega arith

pub length-split : (sep : ℕ) (s : Bytes) → 1 ≤ length (split sep s)
unfolding split
length-split sep [] = omega arith
length-split sep (c ∷ s) = ground (arith, length-split sep s, length-onto_first c (split sep s))
