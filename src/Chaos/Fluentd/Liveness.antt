-- ===== src/Chaos/Fluentd/Liveness.antt =====
-- The scenario of chaos/scenarios/fluentd_crash.py: when it passes.
use aiops_distributed_log.Prelude.{
  ℕ, ◌+◌, ◌≤◌, ◌≡◌, true, false, String, some, ℤ, pos, int_ltb, arith,
}
use aiops_distributed_log.Chaos.Host.{Host, IsHost}
use aiops_distributed_log.Chaos.Polling.{poll_in_time}
use aiops_distributed_log.Chaos.Fluentd.{
  get_kafka_offset, docker_stop, docker_start, check_fluentd_buffer_nonempty, recovery_round, crash,
  run, Outcome, recovery_wait_seconds, conclude,
}

-- A sleep takes no longer than it says, and a command at most `k` seconds.
pub record IsPrompt {W : Type 0} (h : Host W) (k : ℕ) : Type 0 where
  pub sleep-le : (n : ℕ) (w : W) → h.now (h.sleep n w) ≤ h.now w + n
  pub run_cmd-le : (c : String) (w : W) → h.now (h.run_cmd c w).1 ≤ h.now w + k

module _ {W : Type 0} (h : Host W) (is : IsHost h) (k : ℕ) (prompt : IsPrompt h k) where
  open h use {now, sleep, run_cmd}

  round_time :
      (b : ℤ) (w : W)
      → (now w + 1 ≤ now (recovery_round h b w).1)
        × (now (recovery_round h b w).1 ≤ now w + (5 + k))
  unfolding recovery_round get_kafka_offset
  round_time b w = omega (
    arith,
    is.now-sleep 5 w,
    is.now-run_cmd _ (sleep 5 w),
    prompt.sleep-le 5 w,
    prompt.run_cmd-le _ (sleep 5 w),
  )

  buffer_true : (w : W) → (check_fluentd_buffer_nonempty h w).0 ≡ true
  unfolding check_fluentd_buffer_nonempty
  buffer_true w = ground arith

  -- The offsets that are read from the time `t` on are greater than `b`.
  abbrev pub GrowsFrom : ℕ → ℤ → Type 0
  GrowsFrom t b = (v : W) → t ≤ now v → int_ltb b (get_kafka_offset h v).0 ≡ true

  found_round :
      (t : ℕ) (b : ℤ)
      → GrowsFrom t b
      → (v : W) → t ≤ now v
      → (a : ℤ) × ((recovery_round h b v).0 ≡ some a)
  unfolding recovery_round
  found_round t b grows v late =
      let u = sleep 5 v in ((get_kafka_offset h u).0, ground (arith, grows u, is.now-sleep 5 v))

  -- The scenario passes wherever Fluentd recovers in time: the offset can be read at the start, the
  -- container is stopped and started without an error, and from some time on, which leaves a round of
  -- five seconds and a command before the deadline, every offset that is read is greater than the one
  -- at the start.
  pub recovery_in_time :
      (t : ℕ) (w : W)
      → let (offset_before, w1) = get_kafka_offset h w in
        let (stopped, w2) = docker_stop h "fluentd-agent" w1 in
        let (buffer, w3) = check_fluentd_buffer_nonempty h (sleep 20 w2) in
        let (restarted, w4) = docker_start h "fluentd-agent" w3 in
        int_ltb offset_before (pos 0) ≡ false
        → stopped ≡ true
        → restarted ≡ true
        → now w4 ≤ t
        → t + (5 + k) ≤ now w4 + 45
        → GrowsFrom t offset_before
        → (o : Outcome) × (w' : W) × (run h 46 w ≡ some (o, w')) × (o.result.passed ≡ true)
  unfolding run crash conclude
  recovery_in_time t w read stopped' restarted' after before grows =
      let (offset_before, w1) = get_kafka_offset h w in
      let (stopped, w2) = docker_stop h "fluentd-agent" w1 in
      let (buffer, w3) = check_fluentd_buffer_nonempty h (sleep 20 w2) in
      let (restarted, w4) = docker_start h "fluentd-agent" w3 in
      let (a, w', e) =
        poll_in_time now (now w4 + recovery_wait_seconds) (recovery_round h offset_before) 46
          (5 + k) t w4 (round_time offset_before) (found_round t offset_before grows) before
          (omega arith) (omega arith) in
      (
        (conclude h offset_before stopped buffer restarted (some a, w')).0,
        w',
        ground (arith, e),
        ground (arith, buffer_true (sleep 20 w2)),
      )
