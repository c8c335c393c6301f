-- ===== src/Chaos/Delta/Safety.antt =====
-- The scenario of chaos/scenarios/delta_safety.py: it ends, and what a passed run shows.
use aiops_distributed_log.Prelude.{
  ℕ, refl, ◌+◌, ◌≤◌, ◌≡◌, ap, sym, ◌∙◌, Bool, true, ◌&&◌, String, Option, none, some, negsuc,
  int_geb, int_beq, arith, is_ok, Bool-cases, Option-cases, inl, inr, ◌⊎◌,
}
use mathlib.Core.Path.{subst}
use aiops_distributed_log.Chaos.Host.{Host, IsHost}
use aiops_distributed_log.Chaos.Polling.{poll-returns}
use aiops_distributed_log.Chaos.Delta.{
  State, Commands, Outcome, baseline, is_intact, get_delta_state, kill_container, start_container,
  health_round, spark_master_healthy, restart_wait_seconds, check_no_tmp_files, verify, run,
}

module _ {W : Type 0} (h : Host W) (is : IsHost h) (cs : Commands)
    (loads : String → Option State) where
  open h use {now, sleep, run_cmd, get_url}

  now-health_round :
      (w : W) → (health_round h cs loads w).0 ≡ none → now w + 1 ≤ now (health_round h cs loads w).1
  unfolding health_round
  now-health_round w e = elim (Bool-cases (is_ok (get_url "http://localhost:8081" w).0)) [
    | inl up ↦ absurd (ground arith)
    | inr down ↦
        let w' = (get_url "http://localhost:8081" w).1 in
        ground (arith, is.now-get_url "http://localhost:8081" w, is.now-sleep 3 w')
  ]

  -- Thirty-one rounds are enough for the loop that waits for the master: the scenario returns a
  -- report, whatever the commands answer.
  pub safety-returns : (w : W) → (outcome : Outcome × W) × (run h cs loads 31 w ≡ some outcome)
  unfolding run spark_master_healthy
  safety-returns w =
      let (before, w1) = get_delta_state h cs loads w in
      let (copied, w2) = run_cmd "docker cp src/. spark-master:/app/src" w1 in
      let (submitted, w3) = run_cmd cs.submit_job w2 in
      let (killed, w4) = kill_container h cs loads "spark-master" (sleep 15 w3) in
      let (restarted, w5) = start_container h cs loads "spark-master" w4 in
      let ((found, w6), e) =
        poll-returns now (now w5 + restart_wait_seconds) (health_round h cs loads) 31 w5
          now-health_round (omega arith) (omega arith) in
      (verify h cs loads before killed restarted w6, ground arith)

  passed-verify :
      (before : State) (killed restarted : Bool) (w : W)
      → let o = (verify h cs loads before killed restarted w).0 in
        o.result.passed ≡ (
          killed
          && restarted
          && is_intact (baseline before) o.after
          && (check_no_tmp_files h cs loads
              (sleep 10 (run_cmd "docker restart spark-worker" w).1)).0)
  unfolding verify
  passed-verify before killed restarted w = ground arith

  -- The last thing that a run does is to read the table.
  last_read :
      (before : State) (killed restarted : Bool) (w : W)
      → let (o, w') = verify h cs loads before killed restarted w in
        (v : W) × (get_delta_state h cs loads v ≡ (o.after, w'))
  unfolding verify
  last_read before killed restarted w = (
    (check_no_tmp_files h cs loads (sleep 10 (run_cmd "docker restart spark-worker" w).1)).1,
    refl,
  )

  intact :
      (before after : State)
      → is_intact before after ≡ true
      → (int_beq after.version (negsuc 0) ≡ true)
        ⊎ ((int_geb after.version before.version ≡ true)
            × (int_geb after.row_count before.row_count ≡ true))
  unfolding is_intact
  intact before after e = ground arith

  -- A run that passes has killed and started the master without an error, and of the table as
  -- it is read at the end of the run one of two holds: its version and its rows are not below those read at the
  -- start, or it could not be read at all.
  pub safety-passed :
      (fuel : ℕ) (w : W) (o : Outcome) {w' : W}
      → run h cs loads fuel w ≡ some (o, w')
      → o.result.passed ≡ true
      → let (before, w1) = get_delta_state h cs loads w in
        let w3 = (run_cmd cs.submit_job (run_cmd "docker cp src/. spark-master:/app/src" w1).1).1 in
        let (killed, w4) = kill_container h cs loads "spark-master" (sleep 15 w3) in
        (killed ≡ true)
        × ((start_container h cs loads "spark-master" w4).0 ≡ true)
        × ((v : W) × (get_delta_state h cs loads v ≡ (o.after, w')))
        × ((int_beq o.after.version (negsuc 0) ≡ true)
            ⊎ ((int_geb o.after.version (baseline before).version ≡ true)
                × (int_geb o.after.row_count (baseline before).row_count ≡ true)))
  unfolding run
  safety-passed fuel w o {w'} e p =
      let (before, w1) = get_delta_state h cs loads w in
      let w3 = (run_cmd cs.submit_job (run_cmd "docker cp src/. spark-master:/app/src" w1).1).1 in
      let (killed, w4) = kill_container h cs loads "spark-master" (sleep 15 w3) in
      let (restarted, w5) = start_container h cs loads "spark-master" w4 in
      elim (Option-cases (spark_master_healthy h cs loads fuel restart_wait_seconds w5)) [
        | inl starved ↦ absurd (ground arith)
        | inr ((healthy, w6), ended) ↦
            let reported = (verify h cs loads before killed restarted w6).0 in
            let ended_so : verify h cs loads before killed restarted w6 ≡ (o, w') = ground arith in
            let same : reported ≡ o = ap (λ r. r.0) ended_so in
            let p' =
              sym (passed-verify before killed restarted w6) ∙ ap (λ x. x.result.passed) same ∙ p in
            let kept : is_intact (baseline before) reported.after ≡ true = ground arith in
            (
              ground arith,
              ground arith,
              subst (λ r. (v : W) × (get_delta_state h cs loads v ≡ (r.0.after, r.1))) ended_so
                  (last_read before killed restarted w6),
              intact (baseline before) o.after
                  (ap (λ x. is_intact (baseline before) x.after) (sym same) ∙ kept),
            )
      ]
