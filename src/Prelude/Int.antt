-- ===== src/Prelude/Int.antt =====
-- The C `int`, as an integer; `-1` is what the program writes for "no descriptor", "no position".
use Prim.Native.Nat.{ℕ, zero, suc}
use mathlib.Core.Bool.{Bool, true, false}
use np.Prelude.Tests.{◌==◌, ltb}

-- `negsuc n` is -(n + 1).
pub data ℤ : Type 0 where
  pos : ℕ → ℤ
  negsuc : ℕ → ℤ

abbrev pub minus_one : ℤ
minus_one = negsuc 0

-- `x < 0`
abbrev pub is_neg : ℤ → Bool
is_neg (pos n) = false
is_neg (negsuc n) = true

-- `x > 0`
abbrev pub is_pos : ℤ → Bool
is_pos (pos n) = ltb 0 n
is_pos (negsuc n) = false

-- `x` as a condition
abbrev pub nonzero : ℤ → Bool
nonzero (pos n) = ltb 0 n
nonzero (negsuc n) = true

-- `-x`
abbrev pub neg : ℤ → ℤ
neg (pos zero) = pos 0
neg (pos (suc n)) = negsuc n
neg (negsuc n) = pos (suc n)

-- `if (x < 0) x *= -1;`
abbrev pub magnitude : ℤ → ℕ
magnitude (pos n) = n
magnitude (negsuc n) = suc n

infix 50 ◌==ℤ◌
abbrev pub ◌==ℤ◌ : ℤ → ℤ → Bool
pos a ==ℤ pos b = a == b
pos a ==ℤ negsuc b = false
negsuc a ==ℤ pos b = false
negsuc a ==ℤ negsuc b = a == b
