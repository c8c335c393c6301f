-- ===== src/Floats/Fixed.antt =====
-- A concrete instance of the interface: fixed point numbers in units of 1/10000, rounded down.
use native.Mathlib.Nat.{mul_comm}
use aiops_distributed_log.Prelude.{ℕ, ◌+◌, ◌*◌, ◌/◌, ◌≤◌, ◌<◌, ◌≡◌, arith, ltb}
use aiops_distributed_log.Floats.{Floats, IsFloats}

abbrev pub fixed : Floats
fixed = record {
  F = ℕ;
  of_ℕ = λ n. n * 10000;
  quotient = λ a b. a * 10000 / b;
  add = λ x y. x + y;
  times = λ x y. x * y / 10000;
  divide = λ x y. x * 10000 / y;
  round2 = λ x. x / 100 * 100;
  gt = λ x y. ltb y x;
}

div_mono : (a b n : ℕ) → 0 < n → a ≤ b → a / n ≤ b / n
div_mono a b n p h = grind arith

mul_div : (a n : ℕ) → 0 < n → a * n / n ≡ a
mul_div a n p = grind arith

zero_div : (n : ℕ) → 0 < n → 0 * 10000 / n ≡ 0 * 10000
zero_div n p = grind arith

self_div : (n : ℕ) → 0 < n → n * 10000 / n ≡ 1 * 10000
self_div n p = rw (mul_comm n 10000) (mul_div 10000 n p)

mul_mono : (x y n : ℕ) → x ≤ y → x * (n * 10000) / 10000 ≤ y * (n * 10000) / 10000
mul_mono x y n h = div_mono (x * (n * 10000)) (y * (n * 10000)) 10000 (omega arith) (grind arith)

pub fixed-IsFloats : IsFloats fixed
fixed-IsFloats = record {
  Leq-refl = λ x. ground arith;
  Leq-trans = λ x y z h k. ground arith;
  quotient_mono = λ a b n p h. ground (arith, div_mono (a * 10000) (b * 10000) n p);
  quotient_zero = λ n p. zero_div n p;
  quotient_self = λ n p. self_div n p;
  times_mono = λ x y n h. ground (arith, mul_mono x y n);
  times_zero = λ n. omega arith;
  times_one = λ n. omega arith;
  round2_mono = λ x y h. ground arith;
  round2_whole = λ n. omega arith;
  gt_whole = λ m n h. ground arith;
}
