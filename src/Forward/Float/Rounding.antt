-- ===== src/Forward/Float/Rounding.antt =====
-- Rounding leaves small numbers alone and never crosses a multiple of a large power of two.
use native.Mathlib.Nat.{one-le-pow, pow-suc, mul_assoc}
use yukon_collector.Base.{ℕ, zero, suc, ◌*◌, ◌/◌, ◌^◌, ◌≤◌, ◌<◌, ◌≡◌, sym, ap, ◌∙◌, arith}
use yukon_collector.Forward.Float.{excess, round_to, round53}

pow-pos : (e : ℕ) → 0 < 2 ^ e
pow-pos e = one-le-pow e 2 (omega arith)

pow-split : (e m : ℕ) → e ≤ m → (c : ℕ) × (2 ^ m ≡ c * 2 ^ e)
pow-split zero m h = (2 ^ m, omega arith)
pow-split (suc e) zero h = absurd (omega arith)
pow-split (suc e) (suc m) h =
    let (c, q) = pow-split e m (omega arith) in
    (c, pow-suc 2 m ∙ ap (λ t. t * 2) q ∙ mul_assoc c (2 ^ e) 2 ∙ ap (◌*◌ c) (sym (pow-suc 2 e)))

round_to-below : (p t n : ℕ) → 0 < p → t * p ≤ n → t * p ≤ round_to p n
unfolding round_to
round_to-below p t n h k = grind arith

round_to-above : (p t n : ℕ) → 0 < p → n ≤ t * p → round_to p n ≤ t * p
unfolding round_to
round_to-above p t n h k = grind arith

excess-le : (f k n : ℕ) → n < 2 ^ 53 * 2 ^ k → excess f n ≤ k
unfolding excess
excess-le zero k n h = omega arith
excess-le (suc f) zero n h = ground arith
excess-le (suc f) (suc k) n h = ground (arith, excess-le f k (n / 2), pow-suc 2 k)

-- A number below 2 ^ (53 + m) stays above each multiple of 2 ^ m that it is above.
pub round53-below : (m t n : ℕ) → n < 2 ^ 53 * 2 ^ m → t * 2 ^ m ≤ n → t * 2 ^ m ≤ round53 n
unfolding round53
round53-below m t n small h =
    let (c, q) = pow-split (excess 128 n) m (excess-le 128 m n small) in
    let e : t * 2 ^ m ≡ (t * c) * 2 ^ excess 128 n =
      ap (◌*◌ t) q ∙ sym (mul_assoc t c (2 ^ excess 128 n)) in
    rw e (round_to-below _ (t * c) n (pow-pos _) (rw e at h))

-- And below each one that it is below.
pub round53-above : (m t n : ℕ) → n < 2 ^ 53 * 2 ^ m → n ≤ t * 2 ^ m → round53 n ≤ t * 2 ^ m
unfolding round53
round53-above m t n small h =
    let (c, q) = pow-split (excess 128 n) m (excess-le 128 m n small) in
    let e : t * 2 ^ m ≡ (t * c) * 2 ^ excess 128 n =
      ap (◌*◌ t) q ∙ sym (mul_assoc t c (2 ^ excess 128 n)) in
    rw e (round_to-above _ (t * c) n (pow-pos _) (rw e at h))

-- Numbers of at most 53 bits are exact.
pub round53_small : (n : ℕ) → n < 2 ^ 53 → round53 n ≡ n
round53_small n h =
    omega (arith, round53-below 0 n n (omega arith), round53-above 0 n n (omega arith))
