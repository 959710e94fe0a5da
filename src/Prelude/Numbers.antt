-- ===== src/Prelude/Numbers.antt =====
-- The whole numbers, for values that the code does not bound from below.
use Prim.Native.Nat.{ℕ, zero, suc, ◌-◌}
use mathlib.Core.Path.{◌≡◌}
use mathlib.Core.Bool.{Bool, true, false}
use native.Mathlib.Omega.{arith}
use evernight_ai.Prelude.Tests.{if◌then◌else◌, ltb, leb}

pub data ℤ : Type 0 where
  pos : ℕ → ℤ
  negsuc : ℕ → ℤ

-- `a - b`
unfoldable pub minus : ℕ → ℕ → ℤ
minus a b = if leb b a then pos (a - b) else negsuc (b - suc a)

-- `-x`
unfoldable pub negated : ℤ → ℤ
negated (pos zero) = pos zero
negated (pos (suc n)) = negsuc n
negated (negsuc n) = pos (suc n)

-- `x < y`
unfoldable pub int_ltb : ℤ → ℤ → Bool
int_ltb (pos a) (pos b) = ltb a b
int_ltb (pos a) (negsuc b) = false
int_ltb (negsuc a) (pos b) = true
int_ltb (negsuc a) (negsuc b) = ltb b a

pub int_ltb_asym : (x y : ℤ) → int_ltb x y ≡ true → int_ltb y x ≡ false
unfolding int_ltb
int_ltb_asym (pos a) (pos b) h = ground (arith, h)
int_ltb_asym (pos a) (negsuc b) h = ground (arith, h)
int_ltb_asym (negsuc a) (pos b) h = ground (arith, h)
int_ltb_asym (negsuc a) (negsuc b) h = ground (arith, h)

pub int_le_trans : (x y z : ℤ) → int_ltb y x ≡ false → int_ltb z y ≡ false → int_ltb z x ≡ false
unfolding int_ltb
int_le_trans (pos a) (pos b) (pos c) h k = ground (arith, h, k)
int_le_trans (pos a) (pos b) (negsuc c) h k = ground (arith, h, k)
int_le_trans (pos a) (negsuc b) (pos c) h k = ground (arith, h, k)
int_le_trans (pos a) (negsuc b) (negsuc c) h k = ground (arith, h, k)
int_le_trans (negsuc a) (pos b) (pos c) h k = ground (arith, h, k)
int_le_trans (negsuc a) (pos b) (negsuc c) h k = ground (arith, h, k)
int_le_trans (negsuc a) (negsuc b) (pos c) h k = ground (arith, h, k)
int_le_trans (negsuc a) (negsuc b) (negsuc c) h k = ground (arith, h, k)
