-- ===== src/Chaos/Suite/Passed.antt =====
-- chaos/chaos_runner.py: what the exit code 0 of a run of all scenarios shows.
use aiops_distributed_log.Prelude.{
  ◌≡◌, ◌⊎◌, true, String, Option, some, ok, negsuc, int_beq, int_geb, all, Bool-cases, inl, inr,
  arith,
}
use aiops_distributed_log.Chaos.Host.{Host, IsHost}
use aiops_distributed_log.Chaos.Fluentd
use aiops_distributed_log.Chaos.Fluentd.Recovery.{HasGrown, recovery-passed}
use aiops_distributed_log.Chaos.Kafka
use aiops_distributed_log.Chaos.Kafka.Failover.{HasFailedOver, failover-passed}
use aiops_distributed_log.Chaos.Delta
use aiops_distributed_log.Chaos.Delta.Safety.{safety-passed}
use aiops_distributed_log.Chaos.Latency
use aiops_distributed_log.Chaos.Latency.Verdict.{WasDelivered, verdict-passed}
use aiops_distributed_log.Chaos.Runner.{main, main_lem, verdicts, scenario_keys}
use aiops_distributed_log.Chaos.Suite.{
  fluentd, kafka, delta, latency, scenario, fluentd_ran, kafka_ran, delta_ran, latency_ran,
  four_verdicts,
}

module _ {W : Type 0} (h : Host W) (is : IsHost h) (cs : Delta.Commands)
    (loads : String → Option Delta.State) (c : Latency.Clients W) (probe_id : W → String) where
  -- The scenarios in the states in which they start: `w`, and the ends of the ones before.
  abbrev pub Recovered : W → Type 0
  Recovered w =
      let w' = (fluentd h cs loads c probe_id w).1 in
      (o : Fluentd.Outcome) × (Fluentd.run h 46 w ≡ some (o, w'))
      × HasGrown h is (Fluentd.get_kafka_offset h w).0 o w'

  abbrev pub FailedOver : W → Type 0
  FailedOver w =
      let w' = (kafka h cs loads c probe_id w).1 in
      let (controller', w1) = Kafka.get_controller_id h w in
      let w2 = (Kafka.docker_kill h (Kafka.name_of (Kafka.target_of h controller')) w1).1 in
      (o : Kafka.Outcome) × (Kafka.run h 61 w ≡ some (ok o, w')) × HasFailedOver h is w2 o w'

  abbrev pub Survived : W → Type 0
  Survived w =
      let w' = (delta h cs loads c probe_id w).1 in
      let before = Delta.baseline (Delta.get_delta_state h cs loads w).0 in
      (o : Delta.Outcome) × (v : W) × (Delta.run h cs loads 31 w ≡ some (o, w'))
      × (Delta.get_delta_state h cs loads v ≡ (o.after, w'))
      × ((int_beq o.after.version (negsuc 0) ≡ true)
          ⊎ ((int_geb o.after.version before.version ≡ true)
              × (int_geb o.after.row_count before.row_count ≡ true)))

  abbrev pub Delivered : W → Type 0
  Delivered w =
      (o : Latency.Outcome) × (v : W) × (Latency.run h c (probe_id w) w ≡ (ok o, v))
      × WasDelivered h c o

  code_zero :
      (w : W)
      → (main h (scenario h cs loads c probe_id) "all" w).1 ≡ 0
      → all (λ b. b) (verdicts h (scenario h cs loads c probe_id) scenario_keys w) ≡ true
  code_zero w e =
      let (labels, passed, code, printed) = main_lem h (scenario h cs loads c probe_id) "all" w in
      elim (Bool-cases
        (all (λ b. b) (verdicts h (scenario h cs loads c probe_id) scenario_keys w))) [
          | inl good ↦ good
          | inr bad ↦ absurd (ground arith)
        ]

  -- If the runner leaves with 0 from all four scenarios, then, each in the state that the one before has
  -- left: the offset of the log topic has grown after Fluentd's return; another container's node was
  -- named the controller, and the killed one's number was found again; the table that was read last
  -- is not behind the one at the start, or was unreadable; and a message came at the WebSocket within
  -- the target, or none came and the REST endpoint has returned an alert.
  pub main_all :
      (w : W)
      → (main h (scenario h cs loads c probe_id) "all" w).1 ≡ 0
      → let w1 = (fluentd h cs loads c probe_id w).1 in
        let w2 = (kafka h cs loads c probe_id w1).1 in
        let w3 = (delta h cs loads c probe_id w2).1 in
        Recovered w × FailedOver w1 × Survived w2 × Delivered w3
  main_all w e =
      let (p1, p2, p3, p4) = four_verdicts h cs loads c probe_id w (code_zero w e) in
      let w1 = (fluentd h cs loads c probe_id w).1 in
      let w2 = (kafka h cs loads c probe_id w1).1 in
      let w3 = (delta h cs loads c probe_id w2).1 in
      let (o1, ran1, passed1) = fluentd_ran h cs loads c probe_id w p1 in
      let (o2, ran2, passed2) = kafka_ran h cs loads c probe_id w1 p2 in
      let (o3, ran3, passed3) = delta_ran h cs loads c probe_id w2 p3 in
      let (o4, ran4, passed4) = latency_ran h cs loads c probe_id w3 p4 in
      let (_, _, grown) = recovery-passed h is 46 w o1 ran1 passed1 in
      let (_, _, failed_over) = failover-passed h is 61 w1 o2 ran2 passed2 in
      let (_, _, (v, read), judged) = safety-passed h is cs loads 31 w2 o3 ran3 passed3 in
      let (_, _, delivered) =
        verdict-passed h c (probe_id w3) w3 (latency h cs loads c probe_id w3).1 o4 ran4 passed4 in
      (
        (o1, ran1, grown),
        (o2, ran2, failed_over),
        (o3, v, ran3, read, judged),
        (o4, (latency h cs loads c probe_id w3).1, ran4, delivered),
      )
