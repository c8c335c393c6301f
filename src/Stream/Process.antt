-- ===== src/Stream/Process.antt =====
-- src/processing/stream_processor.py, `BatchProcessor`: its state, the sinks that a batch is
-- written to, and `process`. What the surroundings do to a batch is in `Answers`.
pub mod Stages
pub mod Isolation
pub mod Model
pub mod Egress
pub mod Metrics
pub mod Order
mod Tests
use aiops_distributed_log.Prelude.{
  ℕ, Bool, true, false, List, [], ◌∷◌, ◌++◌, Option, none, some, String, Result, ok, err, ◌>>=◌,
  nat_beq, filter, length, map, is_empty, if◌then◌else◌,
}
use aiops_distributed_log.Floats.{Floats}
use aiops_distributed_log.Postgres.{Psycopg}
use aiops_distributed_log.Tables.Rows.{BatchMetric, HealthRow, ModelMetric, AlertRow}
use aiops_distributed_log.Stream.{Event, Processed}
use aiops_distributed_log.Stream.Train.{Ml, train_model}
use aiops_distributed_log.Stream.Alerts.{write_anomaly_alerts}
use aiops_distributed_log.Stream.Health.{update_component_health}
use aiops_distributed_log.Stream.Metrics.{write_model_metrics}
pub use Stages.{Write, Jdbc, KafkaAlert, with_uuids}
unfoldable pub use Stages.{
  mark_all, write_delta, publish_alerts, kafka_alert, anomalies_of_batch, write_postgres,
}

pub record Sinks (F : Type 0) : Type 0 where
  -- the Delta table `processed_logs`
  pub processed_logs : List Processed
  -- the Kafka topic `critical-alerts`
  pub critical_alerts : List KafkaAlert
  pub batch_metrics : List BatchMetric
  pub anomaly_alerts : List (AlertRow ℕ)
  pub component_health : List (HealthRow F)
  pub model_metrics : List (ModelMetric F)

pub record Answers (F : Type 0) : Type 1 where
  -- `uuid()` for the rows of the batch, and `uuid4()` for its alerts
  pub event_ids : List String
  pub alert_ids : List String
  pub processed_at : ℕ
  pub delta : Write Processed
  pub kafka : Write KafkaAlert
  pub jdbc : Jdbc
  pub alerts_db : Psycopg (List (AlertRow ℕ))
  pub health_db : Psycopg (List (HealthRow F))
  pub metrics_db : Psycopg (List (ModelMetric F))

-- `nlp_model`, `km_model`, `anomaly_cluster` and `trained`.
pub record Processor (Nlp Km : Type 0) : Type 0 where
  pub nlp_model : Option Nlp
  pub km_model : Option Km
  pub anomaly_cluster : ℕ
  pub trained : Bool

abbrev pub new_processor : {Nlp Km : Type 0} → Processor Nlp Km
new_processor = record { nlp_model = none; km_model = none; anomaly_cluster = 0; trained = false }

module _ (fl : Floats) (ml : Ml) (show_time : ℕ → String) where
  open fl use {F}
  open ml use {Nlp, Km, vectorize, predict}

  -- `if not self.trained: …`
  unfoldable pub ensure_trained : List Event → Processor Nlp Km → Result (Processor Nlp Km)
  ensure_trained batch self = if self.trained then ok self else do
    (nlp, km, anomaly_cluster) ← train_model ml batch
    ok (record {
      nlp_model = some nlp;
      km_model = some km;
      anomaly_cluster = anomaly_cluster;
      trained = true;
    })

  -- `self.nlp_model.transform(…)`: without a model there is no such method.
  abbrev pub present {ℓ} : {A : Type ℓ} → Option A → Result A
  present none = err "AttributeError"
  present (some a) = ok a

  unfoldable pub score_batch : List Event → Processor Nlp Km → Result (List (Event × ℕ))
  score_batch batch self = do
    nlp ← present self.nlp_model
    vectorized ← vectorize nlp batch
    km ← present self.km_model
    predict km vectorized

  -- The six writes, each in its own handler.
  unfoldable pub write_all : Answers F → ℕ → List Processed → Sinks F → Sinks F
  unfolding write_delta publish_alerts write_postgres
  write_all a batch_id processed s =
      let anomalies = anomalies_of_batch processed in
      record {
        processed_logs = write_delta a.delta processed s.processed_logs;
        critical_alerts = publish_alerts a.kafka anomalies s.critical_alerts;
        batch_metrics = write_postgres a.jdbc processed s.batch_metrics;
        anomaly_alerts =
            (write_anomaly_alerts a.alerts_db show_time (with_uuids a.alert_ids anomalies)
              s.anomaly_alerts).1;
        component_health = update_component_health fl a.health_db processed s.component_health;
        model_metrics = write_model_metrics fl a.metrics_db batch_id processed s.model_metrics;
      }

  abbrev score_and_write :
      Answers F → ℕ → List Event → Processor Nlp Km → Sinks F → Processor Nlp Km × Sinks F
  score_and_write a batch_id batch self s = elim (score_batch batch self) [
    | err e ↦ (self, s)
    | ok scored ↦ (
      self,
      write_all a batch_id (mark_all a.event_ids a.processed_at self.anomaly_cluster scored) s,
    )
  ]

  unfoldable pub process :
      Answers F → ℕ → List Event → Processor Nlp Km → Sinks F → Processor Nlp Km × Sinks F
  process a batch_id batch self s =
      if nat_beq (length batch) 0 then (self, s) else elim (ensure_trained batch self) [
        | err e ↦ (self, s)
        | ok self' ↦ score_and_write a batch_id batch self' s
      ]
