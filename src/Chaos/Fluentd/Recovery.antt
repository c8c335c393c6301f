-- ===== src/Chaos/Fluentd/Recovery.antt =====
-- The scenario of chaos/scenarios/fluentd_crash.py: it ends, and what a passed run shows.
use aiops_distributed_log.Prelude.{
  ℕ, ◌+◌, ◌≤◌, ◌<◌, ◌≡◌, refl, Bool, true, Option, none, some, ℤ, pos, negsuc, int_ltb, gain, arith,
  Bool-cases, Option-cases, inl, inr,
}
use mathlib.Core.Path.{subst}
use aiops_distributed_log.Chaos.Host.{Host, IsHost}
use aiops_distributed_log.Chaos.Polling.{poll, poll-returns, poll_found}
use aiops_distributed_log.Chaos.Fluentd.{
  get_kafka_offset, docker_stop, docker_start, check_fluentd_buffer_nonempty, recovery_round, crash,
  run, Outcome, recovery_wait_seconds, conclude, unreachable,
}

module _ {W : Type 0} (h : Host W) (is : IsHost h) where
  open h use {now, sleep, run_cmd}

  now-recovery_round : (b : ℤ) (w : W) → now w + 1 ≤ now (recovery_round h b w).1
  unfolding recovery_round get_kafka_offset
  now-recovery_round b w = omega (arith, is.now-sleep 5 w, is.now-run_cmd _ (sleep 5 w))

  -- Forty-six rounds are enough for the loop: the scenario returns a report, whatever the commands
  -- answer.
  pub recovery-returns : (w : W) → (outcome : Outcome × W) × (run h 46 w ≡ some outcome)
  unfolding run crash
  recovery-returns w =
      let (offset_before, w') = get_kafka_offset h w in
      let (stopped, w1) = docker_stop h "fluentd-agent" w' in
      let (buffer, w2) = check_fluentd_buffer_nonempty h (sleep 20 w1) in
      let (restarted, w3) = docker_start h "fluentd-agent" w2 in
      let (ended, e) =
        poll-returns now (now w3 + recovery_wait_seconds) (recovery_round h offset_before) 46 w3
          (λ v e. now-recovery_round offset_before v) (omega arith) (omega arith) in
      elim (Bool-cases (int_ltb offset_before (pos 0))) [
        | inl unread ↦ ((unreachable h offset_before, w'), ground arith)
        | inr read ↦ (conclude h offset_before stopped buffer restarted ended, ground (arith, e))
      ]

  gain-pos : (a b : ℤ) → int_ltb b a ≡ true → 0 < gain a b
  gain-pos (pos a) (pos b) e = ground arith
  gain-pos (pos a) (negsuc b) e = ground arith
  gain-pos (negsuc a) (pos b) e = absurd (ground arith)
  gain-pos (negsuc a) (negsuc b) e = ground arith

  grown :
      (b : ℤ) (v : W) {after : ℤ} {w : W}
      → recovery_round h b v ≡ (some after, w)
      → (get_kafka_offset h (sleep 5 v) ≡ (after, w)) × (int_ltb b after ≡ true)
  unfolding recovery_round
  grown b v e = elim (Bool-cases (int_ltb b (get_kafka_offset h (sleep 5 v)).0)) [
    | inl more ↦ ground arith
    | inr less ↦ absurd (ground arith)
  ]

  -- What a report says of the offset that was read last: the state is that at the end of the run.
  abbrev pub HasGrown : ℤ → Outcome → W → Type 0
  HasGrown b o w =
      (after : ℤ) × (v : W) × (get_kafka_offset h v ≡ (after, w))
      × (o.after_recovery ≡ some (after, gain after b))
      × (0 < gain after b)

  passed-conclude :
      (b : ℤ) (stopped buffer restarted : Bool) (found : Option ℤ) (v w : W) (fuel : ℕ)
      (deadline : ℕ)
      → poll now deadline (recovery_round h b) fuel w ≡ some (found, v)
      → (conclude h b stopped buffer restarted (found, v)).0.result.passed ≡ true
      → (stopped ≡ true)
        × (restarted ≡ true)
        × HasGrown b (conclude h b stopped buffer restarted (found, v)).0 v
  unfolding conclude
  passed-conclude b stopped buffer restarted none v w fuel deadline e p = absurd (ground arith)
  passed-conclude b stopped buffer restarted (some after) v w fuel deadline e p =
      let (u, early, found) = poll_found now deadline (recovery_round h b) fuel w e in
      let (read, more) = grown b u found in
      (ground arith, ground arith, (after, sleep 5 u, read, refl, gain-pos after b more))

  -- A run that passes has stopped and started the container without an error, and the last
  -- offset that it has read is greater than the one at the start: the number of messages delivered
  -- that it reports is above 0.
  pub recovery-passed :
      (fuel : ℕ) (w : W) (o : Outcome) {w' : W}
      → run h fuel w ≡ some (o, w')
      → o.result.passed ≡ true
      → let (offset_before, w1) = get_kafka_offset h w in
        let (stopped, w2) = docker_stop h "fluentd-agent" w1 in
        let (buffer, w3) = check_fluentd_buffer_nonempty h (sleep 20 w2) in
        (stopped ≡ true)
        × ((docker_start h "fluentd-agent" w3).0 ≡ true)
        × HasGrown offset_before o w'
  unfolding run crash
  recovery-passed fuel w o {w' = w''} e p =
      let (offset_before, w') = get_kafka_offset h w in
      let (stopped, w1) = docker_stop h "fluentd-agent" w' in
      let (buffer, w2) = check_fluentd_buffer_nonempty h (sleep 20 w1) in
      let (restarted, w3) = docker_start h "fluentd-agent" w2 in
      let deadline = now w3 + recovery_wait_seconds in
      elim (Bool-cases (int_ltb offset_before (pos 0))) [
        | inl unread ↦ absurd (ground arith)
        | inr read ↦
            elim (Option-cases (poll now deadline (recovery_round h offset_before) fuel w3)) [
              | inl starved ↦ absurd (ground arith)
              | inr ((found, v), ended) ↦
                  let same : (conclude h offset_before stopped buffer restarted (found, v)).0 ≡ o =
                    ground arith in
                  let last : v ≡ w'' = ground arith in
                  subst (λ x. (stopped ≡ true) × (restarted ≡ true) × HasGrown offset_before x w'')
                    same
                    (subst
                      (λ x.
                        (stopped ≡ true)
                        × (restarted ≡ true)
                        × HasGrown offset_before
                            (conclude h offset_before stopped buffer restarted (found, v)).0 x)
                      last
                      (passed-conclude offset_before stopped buffer restarted found v w3 fuel
                        deadline ended (ground arith)))
            ]
      ]
