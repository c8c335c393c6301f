-- ===== src/Chaos/Config/Agrees.antt =====
-- chaos/chaos_config.py against the copies of its constants in the scenarios.
use aiops_distributed_log.Prelude.{
  ◌≡◌, refl, List, [], ◌∷◌, String, Option, none, some, map, if◌then◌else◌, ◌==◌, string_eq,
}
use aiops_distributed_log.Chaos.Config
use aiops_distributed_log.Chaos.Fluentd
use aiops_distributed_log.Chaos.Kafka
use aiops_distributed_log.Chaos.Delta
use aiops_distributed_log.Chaos.Latency
use aiops_distributed_log.Scripts.Submit

abbrev constant {ℓ} : {A : Type ℓ} → String → List (String × A) → Option A
constant name [] = none
constant name ((n, a) ∷ rest) = if n == name then some a else constant name rest

-- The scenarios wait as long as the configuration says.
timing_agrees :
    (constant "fluentd_outage_seconds" Config.timing ≡ some Fluentd.outage_seconds)
    × (constant "fluentd_recovery_wait_seconds" Config.timing ≡ some Fluentd.recovery_wait_seconds)
    × (constant "kafka_re_election_timeout" Config.timing ≡ some Kafka.re_election_timeout)
    × (constant "kafka_rejoin_timeout" Config.timing ≡ some Kafka.rejoin_timeout)
    × (constant "spark_kill_delay_seconds" Config.timing ≡ some Delta.kill_delay_seconds)
    × (constant "spark_restart_wait_seconds" Config.timing ≡ some Delta.restart_wait_seconds)
    × (constant "kafka_scan_timeout" Config.timing ≡ some Latency.kafka_scan_timeout)
    × (constant "websocket_wait_timeout" Config.timing ≡ some Latency.websocket_timeout)
    × (constant "target_kafka_fastapi_ws_ms" Config.latency_targets
        ≡ some Latency.target_latency_ms)
timing_agrees = (refl, refl, refl, refl, refl, refl, refl, refl, refl)

names_agree :
    (constant "fastapi_alerts_url" Config.fastapi_urls ≡ some Latency.alerts_url)
    × (constant "spark_jars" Config.spark ≡ some Submit.jars)
    × (map
          (λ (k : String). constant k Config.containers)
          ("container_kafka_1" ∷ "container_kafka_2" ∷ "container_kafka_3" ∷ [])
        ≡ map some Kafka.all_containers)
names_agree = (refl, refl, refl)
