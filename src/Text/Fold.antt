-- ===== src/Text/Fold.antt =====
-- `strings.ToLower` and `strings.EqualFold`, as far as a comparison with an ASCII text sees them.
use yukon_collector.Base.{
  ℕ, ◌+◌, ◌≡◌, refl, Bool, ◌&&◌, [], ◌∷◌, map, Bytes, codes, bytes_eq, leb, ◌==◌, if◌then◌else◌,
}

unfoldable pub lower_byte : ℕ → ℕ
lower_byte c = if leb b'A' c && leb c b'Z' then c + 32 else c

-- U+0130 and U+212A are the two characters above ASCII that `strings.ToLower` takes into ASCII; a
-- byte of any other is left, and equals no byte of an ASCII text.
unfoldable pub to_lower : Bytes → Bytes
unfolding lower_byte
to_lower [] = []
to_lower (a ∷ []) = lower_byte a ∷ []
to_lower (a ∷ b ∷ []) =
    if a == 0xC4 && b == 0xB0 then b'i' ∷ [] else lower_byte a ∷ lower_byte b ∷ []
to_lower (a ∷ b ∷ c ∷ s) =
    let wide = to_lower s in
    let two = to_lower (c ∷ s) in
    let one = to_lower (b ∷ c ∷ s) in
    if a == 0xE2 && b == 0x84 && c == 0xAA
    then b'k' ∷ wide
    else if a == 0xC4 && b == 0xB0
    then b'i' ∷ two
    else lower_byte a ∷ one

-- `strings.EqualFold` of a text and an ASCII text without the letters `k` and `s`, which are the two
-- ASCII letters that fold to characters above ASCII.
unfoldable pub equal_fold : Bytes → Bytes → Bool
unfolding lower_byte
equal_fold s t = bytes_eq (map lower_byte s) (map lower_byte t)

to_lower_test : to_lower (codes "UpSerT") ≡ codes "upsert"
unfolding to_lower
to_lower_test = refl
