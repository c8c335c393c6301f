-- ===== src/Prelude/Ints.antt =====
-- Python's `int` over the native naturals, as far as the code compares and adds.
use Prim.Native.Nat.{ℕ, suc, ◌+◌, ◌-◌}
use mathlib.Core.Bool.{Bool, true, false, not}
use aiops_distributed_log.Prelude.Tests.{ltb, nat_beq, if◌then◌else◌}

-- `negsuc n` is `-(n + 1)`.
pub data ℤ : Type 0 where
  pos negsuc : ℕ → ℤ

infixl 65 ◌+ℤ◌
abbrev pub ◌+ℤ◌ : ℤ → ℤ → ℤ
pos a +ℤ pos b = pos (a + b)
pos a +ℤ negsuc b = if ltb b a then pos (a - suc b) else negsuc (b - a)
negsuc a +ℤ pos b = if ltb a b then pos (b - suc a) else negsuc (a - b)
negsuc a +ℤ negsuc b = negsuc (suc (a + b))

-- `a < b`
abbrev pub int_ltb : ℤ → ℤ → Bool
int_ltb (pos a) (pos b) = ltb a b
int_ltb (pos a) (negsuc b) = false
int_ltb (negsuc a) (pos b) = true
int_ltb (negsuc a) (negsuc b) = ltb b a

-- `a >= b`
abbrev pub int_geb : ℤ → ℤ → Bool
int_geb a b = not (int_ltb a b)

abbrev pub int_beq : ℤ → ℤ → Bool
int_beq (pos a) (pos b) = nat_beq a b
int_beq (pos a) (negsuc b) = false
int_beq (negsuc a) (pos b) = false
int_beq (negsuc a) (negsuc b) = nat_beq a b

-- `max(0, a - b)`
abbrev pub gain : ℤ → ℤ → ℕ
gain (pos a) (pos b) = a - b
gain (pos a) (negsuc b) = suc (a + b)
gain (negsuc a) (pos b) = 0
gain (negsuc a) (negsuc b) = b - a
