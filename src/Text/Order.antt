-- ===== src/Text/Order.antt =====
-- Strings in the order of their bytes, and `sort.Strings`.
pub mod Sorting
use yukon_collector.Base.{
  ℕ, ◌≡◌, refl, Bool, true, false, ◌&&◌, ◌||◌, List, [], ◌∷◌, Bytes, codes, ltb, ◌==◌,
  if◌then◌else◌,
}

-- `a <= b` on two strings.
unfoldable pub le_bytes : Bytes → Bytes → Bool
le_bytes [] t = true
le_bytes (a ∷ s) [] = false
le_bytes (a ∷ s) (b ∷ t) = ltb a b || ((a == b) && le_bytes s t)

module _ {A : Type 0} (le : A → A → Bool) where
  unfoldable pub insert_sorted : A → List A → List A
  insert_sorted x [] = x ∷ []
  insert_sorted x (y ∷ ys) =
      let rest = insert_sorted x ys in if le x y then x ∷ y ∷ ys else y ∷ rest

  unfoldable pub sort : List A → List A
  unfolding insert_sorted
  sort [] = []
  sort (x ∷ xs) = insert_sorted x (sort xs)

sort_test :
    sort le_bytes (codes "b" ∷ codes "ab" ∷ codes "a" ∷ [])
    ≡ codes "a" ∷ codes "ab" ∷ codes "b" ∷ []
unfolding sort le_bytes
sort_test = refl
