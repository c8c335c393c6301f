-- ===== src/Floats.antt =====
-- Python's floats, as far as the code computes with them: an interface, since the language has
-- no floats of its own. `Leq` is `not (x > y)`, on values that are no NaN.
pub mod Fixed
use aiops_distributed_log.Prelude.{ℕ, ◌≤◌, ◌<◌, ◌≡◌, Bool, false}

pub record Floats : Type 1 where
  pub F : Type 0
  -- the literal of a whole number
  pub of_ℕ : ℕ → F
  -- `a / b` of two ints, for b above 0
  pub quotient : ℕ → ℕ → F
  pub add : F → F → F
  pub times : F → F → F
  pub divide : F → F → F
  -- `round(x, 2)`
  pub round2 : F → F
  -- `x > y`
  pub gt : F → F → Bool

module _ (fl : Floats) where
  open fl use {F, of_ℕ, quotient, add, times, divide, round2, gt}

  abbrev pub Leq : F → F → Type 0
  Leq x y = gt x y ≡ false

  -- IEEE arithmetic, correctly rounded, on whole numbers that a double holds exactly: the
  -- operations keep the order, and exact results stay exact.
  pub record IsFloats : Type 0 where
    pub Leq-refl : (x : F) → Leq x x
    pub Leq-trans : (x y z : F) → Leq x y → Leq y z → Leq x z
    pub quotient_mono : (a b n : ℕ) → 0 < n → a ≤ b → Leq (quotient a n) (quotient b n)
    pub quotient_zero : (n : ℕ) → 0 < n → quotient 0 n ≡ of_ℕ 0
    pub quotient_self : (n : ℕ) → 0 < n → quotient n n ≡ of_ℕ 1
    pub times_mono : (x y : F) (n : ℕ) → Leq x y → Leq (times x (of_ℕ n)) (times y (of_ℕ n))
    pub times_zero : (n : ℕ) → times (of_ℕ 0) (of_ℕ n) ≡ of_ℕ 0
    pub times_one : (n : ℕ) → times (of_ℕ 1) (of_ℕ n) ≡ of_ℕ n
    pub round2_mono : (x y : F) → Leq x y → Leq (round2 x) (round2 y)
    pub round2_whole : (n : ℕ) → round2 (of_ℕ n) ≡ of_ℕ n
    pub gt_whole : (m n : ℕ) → m ≤ n → Leq (of_ℕ m) (of_ℕ n)
