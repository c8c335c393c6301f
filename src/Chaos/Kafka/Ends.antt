-- ===== src/Chaos/Kafka/Ends.antt =====
-- The scenario of chaos/scenarios/kafka_failover.py ends.
use aiops_distributed_log.Prelude.{
  ℕ, ◌+◌, ◌≤◌, ◌≡◌, Bool, true, false, List, [], ◌∷◌, String, Option, some, Result, ok, err, arith,
  Option-cases, Result-cases, inl, inr, option_eq, string_eq,
}
use aiops_distributed_log.Chaos.Host.{Host, IsHost}
use aiops_distributed_log.Chaos.Polling.{poll-returns}
use aiops_distributed_log.Chaos.Text.{splitlines}
use aiops_distributed_log.Chaos.Kafka.{
  controller_from, get_controller_id, docker_kill, docker_start, broker_rejoined, election_round,
  rejoin_round, readable_from, target_of, name_of, survivors_of, rejoin, failover, run, Outcome,
  outcome_of, elected_at, re_election_timeout, rejoin_timeout, leader_of, all_containers,
  quorum_command,
}

module _ {W : Type 0} (h : Host W) (is : IsHost h) where
  open h use {now, sleep, run_cmd}

  now-controller_from : (cs : List String) (w : W) → now w ≤ now (controller_from h cs w).1
  unfolding controller_from
  now-controller_from [] w = omega arith
  now-controller_from (c ∷ cs) w =
      let (result, w') = run_cmd (quorum_command c) w in
      elim (Option-cases (leader_of (splitlines result.stdout))) [
        | inl silent ↦
            ground (arith, is.now-run_cmd (quorum_command c) w, now-controller_from cs w')
        | inr (n, named) ↦
            ground (arith, is.now-run_cmd (quorum_command c) w, now-controller_from cs w')
      ]

  pub now-election_round :
      (killed : Option String) (w : W) → now w + 1 ≤ now (election_round h killed w).1
  unfolding election_round get_controller_id
  now-election_round killed w =
      omega (arith, is.now-sleep 5 w, now-controller_from all_containers (sleep 5 w))

  pub now-rejoin_round :
      (killed : Option String) (cs : List String) (w : W)
      → now w + 1 ≤ now (rejoin_round h killed cs w).1
  unfolding rejoin_round broker_rejoined
  now-rejoin_round killed [] w = omega (arith, is.now-sleep 5 w)
  now-rejoin_round killed (c ∷ cs) w = omega (arith, is.now-sleep 5 w, is.now-run_cmd _ (sleep 5 w))

  rejoin-returns :
      (controller' : Option ℕ) (target : Option String) (killed : Bool) (elected : Option (ℕ × ℕ))
      (w : W)
      → (result : Result Outcome × W) × (rejoin h 61 controller' target killed elected w
          ≡ some result)
  unfolding rejoin
  rejoin-returns controller' target killed elected w =
      let survivors = survivors_of target in
      let (readable, w1) = readable_from h survivors w in
      let (started, w2) = docker_start h (name_of target) w1 in
      let ((ended, w3), e) =
        poll-returns now (now w2 + rejoin_timeout) (rejoin_round h target survivors) 61 w2
          (λ v e. now-rejoin_round target survivors v) (omega arith) (omega arith) in
      elim (Option-cases ended) [
        | inl over ↦
            ((ok (outcome_of h controller' target killed elected readable false), w3), ground arith)
        | inr (answer, found) ↦ elim (Result-cases answer) [
          | inl (_, back) ↦ (
            (ok (outcome_of h controller' target killed elected readable true), w3),
            ground arith,
          )
          | inr (x, raised) ↦ ((err x, w3), ground arith)
        ]
      ]

  -- Sixty-one rounds are enough for each of the two loops: the scenario comes to a report or to an
  -- exception, whatever the commands answer.
  pub failover-returns : (w : W) → (result : Result Outcome × W) × (run h 61 w ≡ some result)
  unfolding run failover
  failover-returns w =
      let (controller', w') = get_controller_id h w in
      let target = target_of h controller' in
      let (killed, w1) = docker_kill h (name_of target) w' in
      let (ended, e) =
        poll-returns now (now w1 + re_election_timeout) (election_round h target) 61 w1
          (λ v e. now-election_round target v) (omega arith) (omega arith) in
      let (result, r) =
        rejoin-returns controller' target killed (elected_at h (now w1) ended) ended.1 in
      (result, ground arith)
