-- ===== src/Base/Int.antt =====
-- C's `int`, within its range: an integer, with division and remainder cut towards zero.
use Prim.Native.Nat.{ℕ, zero, suc, ◌/◌, ◌%◌}
use mathlib.Core.Path.{◌≡◌}
use mathlib.Core.Bool.{Bool, true, false}
use mathlib.Core.Logic.{◌↔◌}
use native.Mathlib.Omega.{arith}
use coding_demo.Base.Tests.{◌==◌}

-- `negsuc n` is -(n + 1).
pub data ℤ : Type 0 where
  pos : ℕ → ℤ
  negsuc : ℕ → ℤ

infix 50 ◌=ℤ◌
abbrev pub ◌=ℤ◌ : ℤ → ℤ → Bool
pos a =ℤ pos b = a == b
negsuc a =ℤ negsuc b = a == b
_ =ℤ _ = false

pub =ℤ_iff : (a b : ℤ) → ((a =ℤ b) ≡ true) ↔ (a ≡ b)
=ℤ_iff (pos a) (pos b) = ground arith
=ℤ_iff (pos a) (negsuc b) = ground arith
=ℤ_iff (negsuc a) (pos b) = ground arith
=ℤ_iff (negsuc a) (negsuc b) = ground arith

-- -n
abbrev pub neg : ℕ → ℤ
neg zero = pos 0
neg (suc n) = negsuc n

-- `a / n` and `a % n` for a positive `n`.
abbrev pub quot : ℤ → ℕ → ℤ
quot (pos a) n = pos (a / n)
quot (negsuc a) n = neg (suc a / n)

abbrev pub rem : ℤ → ℕ → ℤ
rem (pos a) n = pos (a % n)
rem (negsuc a) n = neg (suc a % n)
