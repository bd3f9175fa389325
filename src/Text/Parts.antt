-- ===== src/Text/Parts.antt =====
-- `strings.Split` and `strings.Join` with a separator of one byte.
pub mod RoundTrip
use yukon_collector.Base.{◌≡◌, refl, List, [], ◌∷◌, ◌++◌, ℕ, Bytes, codes, ◌==◌, if◌then◌else◌}

-- The first part gets one more byte.
abbrev pub onto_first : ℕ → List Bytes → List Bytes
onto_first c [] = (c ∷ []) ∷ []
onto_first c (p ∷ ps) = (c ∷ p) ∷ ps

unfoldable pub split : ℕ → Bytes → List Bytes
split sep [] = [] ∷ []
split sep (c ∷ s) = let rest = split sep s in if c == sep then [] ∷ rest else onto_first c rest

unfoldable pub join : ℕ → List Bytes → Bytes
join sep [] = []
join sep (p ∷ []) = p
join sep (p ∷ q ∷ ps) = p ++ sep ∷ join sep (q ∷ ps)

split_test : split b',' (codes "a,,b,") ≡ codes "a" ∷ [] ∷ codes "b" ∷ [] ∷ []
unfolding split
split_test = refl

join_test : join b',' (codes "a" ∷ codes "b" ∷ []) ≡ codes "a,b"
unfolding join
join_test = refl
