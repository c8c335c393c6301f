-- ===== src/Stream/Health/Status.antt =====
-- The status that `_update_component_health` of src/processing/stream_processor.py derives.
use aiops_distributed_log.Prelude.{
  ℕ, ◌≤◌, ◌<◌, ◌≡◌, refl, Bool, true, false, String, arith, ltb, if◌then◌else◌, Bool-cases, inl,
  inr, ◌==◌, string_eq,
}
use aiops_distributed_log.Floats.{Floats, IsFloats, Leq}
use aiops_distributed_log.Stream.Health.{error_rate, derive_status}

-- How bad a status is.
abbrev pub level : String → ℕ
level s = if s == "critical" then 2 else if s == "warning" then 1 else 0

module _ (fl : Floats) (is : IsFloats fl) where
  open fl use {F, of_ℕ, quotient, times, round2, gt}

  error_rate_mono : (a b n : ℕ) → a ≤ b → Leq fl (error_rate fl a n) (error_rate fl b n)
  unfolding error_rate
  error_rate_mono a b n h = elim (Bool-cases (ltb 0 n)) [
    | inl some_events ↦
        rw some_events
          (is.round2_mono _ _ (is.times_mono _ _ 100 (is.quotient_mono a b n (ground arith) h)))
    | inr no_events ↦ rw no_events (is.Leq-refl (of_ℕ 0))
  ]

  level-derive_status :
      (x : F)
      → level (derive_status fl x) ≡ (if gt x (of_ℕ 10) then 2 else if gt x (of_ℕ 2) then 1 else 0)
  unfolding derive_status
  level-derive_status x = at_tests (gt x (of_ℕ 10)) (gt x (of_ℕ 2))
    where
      at_tests :
          (b c : Bool)
          → level (if b then "critical" else if c then "warning" else "healthy")
            ≡ (if b then 2 else if c then 1 else 0)
      at_tests true c = refl
      at_tests false true = refl
      at_tests false false = refl

  status_mono : (x y : F) → Leq fl x y → level (derive_status fl x) ≤ level (derive_status fl y)
  status_mono x y h = ground (
    arith,
    level-derive_status x,
    level-derive_status y,
    is.Leq-trans x y (of_ℕ 10),
    is.Leq-trans x y (of_ℕ 2),
    is.Leq-trans y (of_ℕ 2) (of_ℕ 10),
    is.gt_whole 2 10 (omega arith),
  )

  -- Among batches with as many events of a component, one with more anomalies never gets a
  -- milder status.
  pub derive_status_mono :
      (a b n : ℕ)
      → a ≤ b
      → level (derive_status fl (error_rate fl a n)) ≤ level (derive_status fl (error_rate fl b n))
  derive_status_mono a b n h = status_mono _ _ (error_rate_mono a b n h)

  error_rate-zero : (n : ℕ) → error_rate fl 0 n ≡ of_ℕ 0
  unfolding error_rate
  error_rate-zero n = elim (Bool-cases (ltb 0 n)) [
    | inl some_events ↦
        rw some_events
          (rw (is.quotient_zero n (ground arith), is.times_zero 100) (is.round2_whole 0))
    | inr no_events ↦ rw no_events refl
  ]

  error_rate-full : (n : ℕ) → 0 < n → error_rate fl n n ≡ of_ℕ 100
  unfolding error_rate
  error_rate-full n h = elim (Bool-cases (ltb 0 n)) [
    | inl some_events ↦
        rw some_events (rw (is.quotient_self n h, is.times_one 100) (is.round2_whole 100))
    | inr no_events ↦ absurd (ground arith)
  ]

  -- With at most as many anomalies as events, of which there is one at least, the rate lies
  -- between 0 and 100, and a component without anomalies is healthy.
  pub error_rate_bounds :
      (a n : ℕ)
      → 0 < n
      → a ≤ n
      → Leq fl (of_ℕ 0) (error_rate fl a n)
        × Leq fl (error_rate fl a n) (of_ℕ 100)
        × (derive_status fl (error_rate fl 0 n) ≡ "healthy")
  unfolding derive_status
  error_rate_bounds a n p h = (
    rw (← error_rate-zero n) (error_rate_mono 0 a n (omega arith)),
    rw (← error_rate-full n p) (error_rate_mono a n n h),
    rw (error_rate-zero n, is.gt_whole 0 10 (omega arith), is.gt_whole 0 2 (omega arith)) refl,
  )
