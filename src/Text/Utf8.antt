-- ===== src/Text/Utf8.antt =====
-- `utf8.ValidString` on bytes.
use yukon_collector.Base.{
  ℕ, zero, suc, ◌≡◌, refl, Bool, true, false, ◌&&◌, Option, none, some, [], ◌∷◌, Bytes, ltb, leb,
  ◌==◌, if◌then◌else◌,
}

-- What a first byte announces: the bytes that follow, and the range of the next one.
unfoldable pub lead : ℕ → Option (ℕ × ℕ × ℕ)
lead c =
    if ltb c 0x80
    then some (0, 0, 0)
    else if leb 0xC2 c && leb c 0xDF
    then some (1, 0x80, 0xBF)
    else if c == 0xE0
    then some (2, 0xA0, 0xBF)
    else if c == 0xED
    then some (2, 0x80, 0x9F)
    else if leb 0xE1 c && leb c 0xEF
    then some (2, 0x80, 0xBF)
    else if c == 0xF0
    then some (3, 0x90, 0xBF)
    else if leb 0xF1 c && leb c 0xF3
    then some (3, 0x80, 0xBF)
    else if c == 0xF4
    then some (3, 0x80, 0x8F)
    else none

-- The text continues a character of which `k` bytes are still to come, the next from `lo` to `hi`.
unfoldable pub valid_from : (k lo hi : ℕ) → Bytes → Bool
valid_from zero lo hi [] = true
valid_from (suc k) lo hi [] = false
valid_from zero lo hi (c ∷ s) = elim (lead c) [ none ↦ false | some (k, l, h) ↦ valid_from k l h s ]
valid_from (suc k) lo hi (c ∷ s) = leb lo c && leb c hi && valid_from k 0x80 0xBF s

unfoldable pub valid_string : Bytes → Bool
unfolding valid_from lead
valid_string s = valid_from 0 0 0 s

-- "né…" and an overlong "/".
valid_string_test :
    (valid_string (b'n' ∷ 0xC3 ∷ 0xA9 ∷ 0xE2 ∷ 0x80 ∷ 0xA6 ∷ []) ≡ true)
    × (valid_string (0xC0 ∷ 0xAF ∷ []) ≡ false)
unfolding valid_string
valid_string_test = (refl, refl)
