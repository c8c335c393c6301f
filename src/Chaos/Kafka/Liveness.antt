-- ===== src/Chaos/Kafka/Liveness.antt =====
-- The scenario of chaos/scenarios/kafka_failover.py: when it passes.
use aiops_distributed_log.Prelude.{
  ℕ, ◌+◌, ◌≤◌, ◌≡◌, true, false, String, Option, some, ok, option_eq, string_eq, ◌==◌,
}
use aiops_distributed_log.Chaos.Host.{Host, IsHost, succeeded}
use aiops_distributed_log.Chaos.Text.{splitlines}
use aiops_distributed_log.Chaos.Fluentd.Liveness.{IsPrompt}
use aiops_distributed_log.Chaos.Kafka.{
  controller_from, get_controller_id, docker_start, broker_rejoined, name_of, leader_of,
  quorum_command, node_id_to_container,
}

-- What the first container says is taken.
pub get_controller_id-first :
    {W : Type 0} (h : Host W) (w : W) (n : ℕ)
    → succeeded (h.run_cmd (quorum_command "kafka-1") w).0 ≡ true
    → leader_of (splitlines (h.run_cmd (quorum_command "kafka-1") w).0.stdout) ≡ some n
    → (get_controller_id h w).0 ≡ some n
unfolding get_controller_id controller_from
get_controller_id-first h w n answered said = rw (answered, said)

module _ {W : Type 0} (h : Host W) (is : IsHost h) (k : ℕ) (prompt : IsPrompt h k) where
  open h use {now, sleep, run_cmd}

  -- From the time `t` on, a node is named whose container is not the killed one.
  abbrev pub Elects : ℕ → Option String → Type 0
  Elects t killed =
      (v : W)
      → t ≤ now v
      → (n : ℕ) × ((get_controller_id h v).0 ≡ some n)
        × ((node_id_to_container n == killed) ≡ false)

  -- From `r` seconds after a start of the container on, the other one shows its node.
  abbrev pub Rejoins : ℕ → Option String → String → Type 0
  Rejoins r killed c =
      (s v : W)
      → now (docker_start h (name_of killed) s).1 + r ≤ now v
      → (broker_rejoined h killed c v).0 ≡ ok true
