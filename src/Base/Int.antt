-- ===== src/Base/Int.antt =====
-- Signed numbers, and the 64-bit integer that an out-of-range result wraps around to.
use Prim.Native.Nat.{ℕ, ◌-◌, ◌%◌, ◌^◌, ◌≤◌, ◌<◌}
use mathlib.Core.Path.{◌≡◌, ap}
use mathlib.Core.Bool.{Bool, true, false}
use native.Mathlib.Omega.{arith}
use yukon_collector.Base.Tests.{ltb, leb, if◌then◌else◌}

-- `negsuc n` is -(n + 1).
pub data ℤ : Type 0 where
  pos : ℕ → ℤ
  negsuc : ℕ → ℤ

-- `a < b` on signed integers.
abbrev pub lt_int : ℤ → ℤ → Bool
lt_int (pos a) (pos b) = ltb a b
lt_int (pos a) (negsuc b) = false
lt_int (negsuc a) (pos b) = true
lt_int (negsuc a) (negsuc b) = ltb b a

-- `a <= b`.
abbrev pub le_int : ℤ → ℤ → Bool
le_int (pos a) (pos b) = leb a b
le_int (pos a) (negsuc b) = false
le_int (negsuc a) (pos b) = true
le_int (negsuc a) (negsuc b) = leb b a

-- The int64 that a non-negative result wraps around to.
abbrev pub int64 : ℕ → ℤ
int64 n = let m = n % 2 ^ 64 in if ltb m (2 ^ 63) then pos m else negsuc (2 ^ 64 - 1 - m)

pub int64_fits : (n : ℕ) → n < 2 ^ 63 → int64 n ≡ pos n
int64_fits n h = ground arith

pub int64_wraps : (n : ℕ) → 2 ^ 63 ≤ n → n < 2 ^ 64 → int64 n ≡ negsuc (2 ^ 64 - 1 - n)
int64_wraps n h k = ground arith

pub int64_mod : (n : ℕ) → int64 (n % 2 ^ 64) ≡ int64 n
int64_mod n =
    let twice : (n % 2 ^ 64) % 2 ^ 64 ≡ n % 2 ^ 64 = omega arith in
    ap (λ m. if ltb m (2 ^ 63) then pos m else negsuc (2 ^ 64 - 1 - m)) twice
