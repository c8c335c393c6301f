-- ===== src/Chaos/Suite.antt =====
-- chaos/chaos_runner.py with the four scenarios: `SCENARIOS` names the modules whose `run` is called.
pub mod Passed
mod Tests
use aiops_distributed_log.Prelude.{
  ℕ, ◌≡◌, ◌⊎◌, refl, Bool, true, false, ◌&&◌, String, Option, none, some, Result, ok, err, int_beq,
  int_geb, negsuc, all, if◌then◌else◌, ◌==◌, string_eq, arith, Option-cases, Result-cases,
  Bool-cases, inl, inr,
}
use aiops_distributed_log.Chaos.Host.{Host, IsHost, Report}
use aiops_distributed_log.Chaos.Fluentd
use aiops_distributed_log.Chaos.Fluentd.Recovery.{HasGrown, recovery-passed}
use aiops_distributed_log.Chaos.Kafka
use aiops_distributed_log.Chaos.Kafka.Failover.{HasFailedOver, failover-passed}
use aiops_distributed_log.Chaos.Delta
use aiops_distributed_log.Chaos.Delta.Safety.{safety-passed}
use aiops_distributed_log.Chaos.Latency
use aiops_distributed_log.Chaos.Latency.Verdict.{WasDelivered, verdict-passed}
use aiops_distributed_log.Chaos.Runner.{main, main_lem, verdicts, scenario_keys}

-- No scenario runs out of fuel (Fluentd/Recovery, Kafka/Ends, Delta/Safety), so that this is never the
-- result of one.
abbrev pub starved : {W : Type 0} → W → Result Report × W
starved w = (err "out of fuel", w)

module _ {W : Type 0} (h : Host W) (cs : Delta.Commands) (loads : String → Option Delta.State)
    (c : Latency.Clients W) (probe_id : W → String) where
  unfoldable pub fluentd : W → Result Report × W
  fluentd w = elim (Fluentd.run h 46 w) [ none ↦ starved w | some (o, w') ↦ (ok o.result, w') ]

  unfoldable pub kafka : W → Result Report × W
  kafka w = elim (Kafka.run h 61 w) [
    | none ↦ starved w
    | some (err e, w') ↦ (err e, w')
    | some (ok o, w') ↦ (ok o.result, w')
  ]

  unfoldable pub delta : W → Result Report × W
  delta w = elim (Delta.run h cs loads 31 w) [ none ↦ starved w | some (o, w') ↦ (ok o.result, w') ]

  unfoldable pub latency : W → Result Report × W
  latency w =
      let (result, w') = Latency.run h c (probe_id w) w in
      (elim result [ err e ↦ err e | ok o ↦ ok o.result ], w')

  -- `importlib.import_module(meta["module"]).run()`
  unfoldable pub scenario : String → W → Result Report × W
  unfolding fluentd kafka delta latency
  scenario key w =
      if key == "fluentd"
      then fluentd w
      else if key == "kafka"
      then kafka w
      else if key == "delta"
      then delta w
      else latency w

  -- A scenario that returned a report that passed.
  abbrev pub verdict : Result Report → Bool
  verdict result = elim result [ ok r ↦ r.passed | err e ↦ false ]

  fluentd_ran :
      (w : W)
      → verdict (fluentd w).0 ≡ true
      → (o : Fluentd.Outcome) × (Fluentd.run h 46 w ≡ some (o, (fluentd w).1))
        × (o.result.passed ≡ true)
  unfolding fluentd
  fluentd_ran w p = elim (Option-cases (Fluentd.run h 46 w)) [
    | inl none' ↦ absurd (ground arith)
    | inr ((o, w'), ran) ↦ (o, ground arith, ground arith)
  ]

  kafka_ran :
      (w : W)
      → verdict (kafka w).0 ≡ true
      → (o : Kafka.Outcome) × (Kafka.run h 61 w ≡ some (ok o, (kafka w).1))
        × (o.result.passed ≡ true)
  unfolding kafka
  kafka_ran w p = elim (Option-cases (Kafka.run h 61 w)) [
    | inl none' ↦ absurd (ground arith)
    | inr ((err e, w'), ran) ↦ absurd (ground arith)
    | inr ((ok o, w'), ran) ↦ (o, ground arith, ground arith)
  ]

  delta_ran :
      (w : W)
      → verdict (delta w).0 ≡ true
      → (o : Delta.Outcome) × (Delta.run h cs loads 31 w ≡ some (o, (delta w).1))
        × (o.result.passed ≡ true)
  unfolding delta
  delta_ran w p = elim (Option-cases (Delta.run h cs loads 31 w)) [
    | inl none' ↦ absurd (ground arith)
    | inr ((o, w'), ran) ↦ (o, ground arith, ground arith)
  ]

  latency_ran :
      (w : W)
      → verdict (latency w).0 ≡ true
      → (o : Latency.Outcome) × (Latency.run h c (probe_id w) w ≡ (ok o, (latency w).1))
        × (o.result.passed ≡ true)
  unfolding latency
  latency_ran w p = elim (Result-cases (Latency.run h c (probe_id w) w).0) [
    | inr (e, raised) ↦ absurd (ground arith)
    | inl (o, ran) ↦ (o, ground arith, ground arith)
  ]

  four_verdicts :
      (w : W)
      → all (λ b. b) (verdicts h scenario scenario_keys w) ≡ true
      → let w1 = (fluentd w).1 in
        let w2 = (kafka w1).1 in
        let w3 = (delta w2).1 in
        (verdict (fluentd w).0 ≡ true)
        × (verdict (kafka w1).0 ≡ true)
        × (verdict (delta w2).0 ≡ true)
        × (verdict (latency w3).0 ≡ true)
  unfolding scenario
  four_verdicts w p = (ground arith, ground arith, ground arith, ground arith)
