-- ===== src/TokenFile/Parse.antt =====
-- A token file that was written with one token per line is read as those tokens.
use yukon_collector.Base.{
  ◌≡◌, ◌⊎◌, inl, inr, Bool-cases, refl, ap, ◌∙◌, false, List, [], ◌∷◌, ◌++◌, All, Bytes, is_empty,
  bytes_eq, bytes_eq_sound, bytes_eq_refl,
}
use yukon_collector.Text.Space.{trim_space}
use yukon_collector.Text.Parts.{split, join}
use yukon_collector.Text.Parts.RoundTrip.{IsPart, split-join}
use yukon_collector.TokenFile.{trim_bom, is_comment, collect, parse}

-- A text that can be a token: of one line, with no space around it, not blank and not a comment.
pub record IsToken (t : Bytes) : Type 0 where
  pub one_line : IsPart b'\n' t
  pub trimmed : trim_space t ≡ t
  pub some_text : is_empty t ≡ false
  pub no_comment : is_comment t ≡ false

collect-All : (ts : List Bytes) → All IsToken ts → collect ts ≡ ts
unfolding collect
collect-All [] h = refl
collect-All (t ∷ ts) (v, h) =
    rw (v.trimmed, v.some_text, v.no_comment) (ap (λ rest. t ∷ rest) (collect-All ts h))

lines : (ts : List Bytes) → All IsToken ts → All (IsPart b'\n') ts
lines [] h = h
lines (t ∷ ts) (v, h) = (v.one_line, lines ts h)

collect-split : (ts : List Bytes) → All IsToken ts → collect (split b'\n' (join b'\n' ts)) ≡ ts
unfolding collect split join is_empty trim_space
collect-split [] h = refl
collect-split (t ∷ ts) h =
    ap collect (split-join b'\n' t ts (lines (t ∷ ts) h)) ∙ collect-All (t ∷ ts) h

-- The mark is taken off a text, or the text does not begin with it.
trim_bom_lem : (s : Bytes) → (trim_bom s ≡ s) ⊎ ((rest : Bytes) × (s ≡ 0xEF ∷ 0xBB ∷ 0xBF ∷ rest))
unfolding trim_bom
trim_bom_lem [] = inl refl
trim_bom_lem (a ∷ []) = inl refl
trim_bom_lem (a ∷ b ∷ []) = inl refl
trim_bom_lem (a ∷ b ∷ c ∷ s) =
    elim (Bool-cases (bytes_eq (a ∷ b ∷ c ∷ []) (0xEF ∷ 0xBB ∷ 0xBF ∷ []))) [
      | inl e ↦ inr (s, ap (λ m. m ++ s) (bytes_eq_sound (a ∷ b ∷ c ∷ []) _ e))
      | inr e ↦ inl (rw e refl)
    ]

-- Texts that can be tokens, written one per line behind a byte order mark, are read as those tokens;
-- and so they are without the mark, or else what was written begins with one.
pub parse-join :
    (ts : List Bytes)
    → All IsToken ts
    → (parse (0xEF ∷ 0xBB ∷ 0xBF ∷ join b'\n' ts) ≡ ts)
      × ((parse (join b'\n' ts) ≡ ts)
          ⊎ ((rest : Bytes) × (join b'\n' ts ≡ 0xEF ∷ 0xBB ∷ 0xBF ∷ rest)))
unfolding parse trim_bom
parse-join ts h = (
  rw (bytes_eq_refl (0xEF ∷ 0xBB ∷ 0xBF ∷ [])) (collect-split ts h),
  elim (trim_bom_lem (join b'\n' ts)) [
    | inl e ↦ inl (rw e (collect-split ts h))
    | inr mark ↦ inr mark
  ],
)
