-- ===== src/Text/Order/Sorting.antt =====
-- Insertions into a sorted list of strings.
use yukon_collector.Base.{◌≡◌, refl, true, false, List, [], ◌∷◌, Bytes, arith}
use yukon_collector.Text.Order.{le_bytes, insert_sorted}

pub le_total : (s t : Bytes) → le_bytes s t ≡ false → le_bytes t s ≡ true
unfolding le_bytes
le_total [] t h = cc
le_total (a ∷ s) [] h = refl
le_total (a ∷ s) (b ∷ t) h = ground (arith, le_total s t)

pub le_antisymm : (s t : Bytes) → le_bytes s t ≡ true → le_bytes t s ≡ true → s ≡ t
unfolding le_bytes
le_antisymm [] [] h k = refl
le_antisymm [] (b ∷ t) h k = cc
le_antisymm (a ∷ s) [] h k = cc
le_antisymm (a ∷ s) (b ∷ t) h k = ground (arith, le_antisymm s t)

pub le_trans : (s t u : Bytes) → le_bytes s t ≡ true → le_bytes t u ≡ true → le_bytes s u ≡ true
unfolding le_bytes
le_trans [] t u h k = refl
le_trans (a ∷ s) [] u h k = cc
le_trans (a ∷ s) (b ∷ t) [] h k = cc
le_trans (a ∷ s) (b ∷ t) (c ∷ u) h k = ground (arith, le_trans s t u)

pub insert_sorted_comm :
    (a b : Bytes) (xs : List Bytes)
    → insert_sorted le_bytes a (insert_sorted le_bytes b xs)
      ≡ insert_sorted le_bytes b (insert_sorted le_bytes a xs)
unfolding insert_sorted
insert_sorted_comm a b [] = ground (arith, le_total a b, le_antisymm a b)
insert_sorted_comm a b (y ∷ xs) = ground (
  arith,
  le_total a b,
  le_total b a,
  le_antisymm a b,
  le_trans a b y,
  le_trans b a y,
  insert_sorted_comm a b xs,
)
