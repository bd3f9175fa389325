-- ===== src/Forward/Float.antt =====
-- The float64 arithmetic of internal/forward/backoff.go, on numbers that are not negative: a number
-- is held exactly, as an integer in a fixed unit, and rounded as IEEE 754 does to 53 bits.
pub mod Rounding
use yukon_collector.Base.{
  ℕ, zero, suc, ◌+◌, ◌*◌, ◌/◌, ◌%◌, ◌^◌, ◌≡◌, refl, ltb, ◌==◌, if◌then◌else◌,
}

-- How many low bits a number has beyond 53; the fuel bounds the answer.
pub excess : ℕ → ℕ → ℕ
excess zero n = 0
excess (suc f) n = let more = suc (excess f (n / 2)) in if ltb n (2 ^ 53) then 0 else more

-- To the nearest multiple of `p`, and to the even one of two that are as near.
pub round_to : ℕ → ℕ → ℕ
round_to p n =
    let q = n / p in
    let twice = 2 * (n % p) in
    if ltb twice p
    then q * p
    else if ltb p twice
    then (q + 1) * p
    else if q % 2 == 0
    then q * p
    else (q + 1) * p

-- The nearest float64, for numbers below 2 ^ 181.
unfoldable pub round53 : ℕ → ℕ
unfolding excess round_to
round53 n = round_to (2 ^ excess 128 n) n

round53_tie : round53 (2 ^ 53 + 1) ≡ 2 ^ 53
unfolding round53
round53_tie = refl

round53_up : round53 (2 ^ 53 + 3) ≡ 2 ^ 53 + 4
unfolding round53
round53_up = refl
