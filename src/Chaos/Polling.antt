-- ===== src/Chaos/Polling.antt =====
-- `while time.time() < deadline: …`, the loop of the scripts that wait: a round either ends the loop
-- with a value or comes to the next test of the clock.
use native.Mathlib.Decide.{dec_lt}
use aiops_distributed_log.Prelude.{
  ℕ, zero, suc, ◌+◌, ◌≤◌, ◌<◌, ◌≡◌, Option, none, some, arith, ltb, if◌then◌else◌, Bool-cases,
  Option-cases, inl, inr,
}

module _ {W A : Type 0} (now : W → ℕ) (deadline : ℕ) (round : W → Option A × W) where
  -- On fuel: `none` means that it did not suffice. A loop that runs into its deadline returns
  -- `(none, w)`.
  unfoldable pub poll : ℕ → W → Option (Option A × W)
  poll zero w = none
  poll (suc fuel) w =
      let (found, w') = round w in
      let later = poll fuel w' in
      if ltb (now w) deadline
      then elim found [ some a ↦ some (some a, w') | none ↦ later ]
      else some (none, w)

  -- The loop ends: where every round that does not end it takes at least a second, one more round than there are
  -- seconds to the deadline is enough.
  pub poll-returns :
      (fuel : ℕ) (w : W)
      → ((v : W) → (round v).0 ≡ none → now v + 1 ≤ now (round v).1)
      → 0 < fuel
      → deadline < now w + fuel
      → (result : Option A × W) × (poll fuel w ≡ some result)
  unfolding poll
  poll-returns zero w step n h = ((none, w), absurd (omega arith))
  poll-returns (suc fuel) w step n h = elim (Bool-cases (ltb (now w) deadline)) [
    | inr over ↦ ((none, w), ground arith)
    | inl early ↦ elim (Option-cases (round w).0) [
      | inr (a, found) ↦ ((some a, (round w).1), ground arith)
      | inl none_yet ↦
          let (result, e) =
            poll-returns fuel (round w).1 step (ground arith) (ground (arith, step w none_yet)) in
          (result, ground arith)
    ]
  ]

  -- What ended the loop: a round that began before the deadline and returned the value, or the
  -- deadline.
  pub poll_found :
      (fuel : ℕ) (w : W) {a : A} {w' : W}
      → poll fuel w ≡ some (some a, w')
      → (v : W) × (now v < deadline) × (round v ≡ (some a, w'))
  unfolding poll
  poll_found zero w h = absurd (ground arith)
  poll_found (suc fuel) w h = elim (Bool-cases (ltb (now w) deadline)) [
    | inr over ↦ absurd (ground arith)
    | inl early ↦ elim (Option-cases (round w).0) [
      | inr (a, found) ↦ (w, ground arith, ground arith)
      | inl none_yet ↦ poll_found fuel (round w).1 (ground arith)
    ]
  ]

  pub poll_over : (fuel : ℕ) (w : W) {w' : W} → poll fuel w ≡ some (none, w') → deadline ≤ now w'
  unfolding poll
  poll_over zero w h = absurd (ground arith)
  poll_over (suc fuel) w h = elim (Bool-cases (ltb (now w) deadline)) [
    | inr over ↦ ground arith
    | inl early ↦ elim (Option-cases (round w).0) [
      | inr (a, found) ↦ absurd (ground arith)
      | inl none_yet ↦ poll_over fuel (round w).1 (ground arith)
    ]
  ]

  -- What is waited for in time is found: rounds take between one second and `d` seconds, from the time
  -- `t` on every round returns a value, and `t` is at least `d` seconds before the deadline.
  pub poll_in_time :
      (fuel d t : ℕ) (w : W)
      → ((v : W) → (now v + 1 ≤ now (round v).1) × (now (round v).1 ≤ now v + d))
      → ((v : W) → t ≤ now v → (a : A) × ((round v).0 ≡ some a))
      → t + d ≤ deadline
      → now w < t + d
      → t + d < now w + fuel
      → (a : A) × (w' : W) × (poll fuel w ≡ some (some a, w'))
  unfolding poll
  poll_in_time zero d t w step there early start n = absurd (omega arith)
  poll_in_time (suc fuel) d t w step there early start n = elim (Option-cases (round w).0) [
    | inr (a, found) ↦ (a, (round w).1, ground arith)
    | inl none_yet ↦ elim (dec_lt (now w) t) [
      | yes before ↦
          let (a, w', e) =
            poll_in_time fuel d t (round w).1 step there early (omega (arith, step w))
              (omega (arith, step w)) in
          (a, w', ground arith)
      | no late ↦ let (a, found) = there w (omega arith) in (a, (round w).1, absurd (ground arith))
    ]
  ]
