-- ===== src/Stream/Job/Tests.antt =====
-- Runs of the streaming job from Kafka values on.
use aiops_distributed_log.Prelude.{ℕ, List, [], ◌∷◌, map, some, true}
use aiops_distributed_log.Stream.{Event}
use aiops_distributed_log.Stream.Enrich.{enrich}
use aiops_distributed_log.Stream.Process.{Processor}
use aiops_distributed_log.Stream.Job.{MicroBatch}
use aiops_distributed_log.Stream.Tests.{answers, parsers, values, cluster_of}

abbrev trained : Processor (Unit {0}) (Unit {0})
trained = record { nlp_model = some tt; km_model = some tt; anomaly_cluster = 0; trained = true }

-- The first batch has no value with a message.
abbrev quiet : MicroBatch ℕ
quiet = record { answers = answers []; values = "broken" ∷ [] }

abbrev busy : MicroBatch ℕ
busy = record { answers = answers []; values = values }

abbrev scored : List (Event × ℕ)
scored = map (λ e. (e, cluster_of e)) (enrich parsers values)
