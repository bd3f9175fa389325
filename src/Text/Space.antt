-- ===== src/Text/Space.antt =====
-- `strings.TrimSpace`: it drops the white space of Unicode, in UTF-8, from both ends.
pub mod Idempotent
use mathlib.Core.List.{reverse}
use yukon_collector.Base.{
  ℕ, zero, suc, ◌-◌, ◌≡◌, refl, Bool, ◌&&◌, ◌||◌, [], ◌∷◌, Bytes, codes, leb, ◌==◌, if◌then◌else◌,
}

-- The white space characters of one, two and three bytes.
space1 : ℕ → Bool
space1 a = (leb 9 a && leb a 13) || a == 32

space2 : ℕ → ℕ → Bool
space2 a b = a == 0xC2 && (b == 0x85 || b == 0xA0)

space3 : ℕ → ℕ → ℕ → Bool
space3 a b c =
    (a == 0xE1 && b == 0x9A && c == 0x80)
    || (a == 0xE2 && b == 0x80 && (leb 0x80 c && leb c 0x8A || c == 0xA8 || c == 0xA9 || c == 0xAF))
    || (a == 0xE2 && b == 0x81 && c == 0x9F)
    || (a == 0xE3 && b == 0x80 && c == 0x80)

-- The bytes of the white space character that a text begins with, or 0.
unfoldable pub front_width : Bytes → ℕ
unfolding space1 space2 space3
front_width [] = 0
front_width (a ∷ []) = if space1 a then 1 else 0
front_width (a ∷ b ∷ []) = if space1 a then 1 else if space2 a b then 2 else 0
front_width (a ∷ b ∷ c ∷ s) =
    if space1 a then 1 else if space2 a b then 2 else if space3 a b c then 3 else 0

-- The same for the last character of a text that is given back to front.
unfoldable pub back_width : Bytes → ℕ
unfolding space1 space2 space3
back_width [] = 0
back_width (c ∷ []) = if space1 c then 1 else 0
back_width (c ∷ b ∷ []) = if space1 c then 1 else if space2 b c then 2 else 0
back_width (c ∷ b ∷ a ∷ s) =
    if space1 c then 1 else if space2 b c then 2 else if space3 a b c then 3 else 0

-- Drops characters as long as `width` finds one; the first argument counts the bytes still to drop.
unfoldable pub skip : (Bytes → ℕ) → ℕ → Bytes → Bytes
skip width k [] = []
skip width zero (c ∷ s) =
    let rest = skip width (width (c ∷ s) - 1) s in if width (c ∷ s) == 0 then c ∷ s else rest
skip width (suc k) (c ∷ s) = skip width k s

unfoldable pub trim_left : Bytes → Bytes
unfolding skip front_width
trim_left s = skip front_width 0 s

unfoldable pub trim_right : Bytes → Bytes
unfolding skip back_width
trim_right s = reverse (skip back_width 0 (reverse s))

unfoldable pub trim_space : Bytes → Bytes
unfolding trim_left trim_right
trim_space s = trim_right (trim_left s)

trim_space_test : trim_space (codes " \tab c\n") ≡ codes "ab c"
unfolding trim_space
trim_space_test = refl

trim_space_wide : trim_space (0xE2 ∷ 0x80 ∷ 0x83 ∷ b'x' ∷ 0xC2 ∷ 0x85 ∷ []) ≡ codes "x"
unfolding trim_space
trim_space_wide = refl

pub trim_space-nil : trim_space [] ≡ []
unfolding trim_space
trim_space-nil = refl
