-- ===== src/Stream.antt =====
-- src/processing/stream_processor.py: the data of the streaming job, and its parts.
pub mod Enrich
pub mod Train
pub mod Transactions
pub mod Alerts
pub mod Health
pub mod Metrics
pub mod Process
pub mod Job
pub mod Tests
use aiops_distributed_log.Prelude.{
  ℕ, Bool, true, false, String, Option, none, some, List, [], ◌∷◌, ◌++◌,
}

-- A row of the enriched stream. Times and dates are numbers; Fluentd's labels are 0 and 1.
pub record Event : Type 0 where
  pub alert_code : String
  pub event_time : Option ℕ
  pub host : Option String
  pub component : String
  pub severity : Option String
  pub message : String
  pub label_original : Option ℕ
  pub ingested_at : Option ℕ
  pub log_date : Option ℕ

-- A row of the frame `processed` of one batch.
pub record Processed : Type 0 where
  pub event_id : String
  pub event_time : Option ℕ
  pub host : Option String
  pub component : String
  pub severity : Option String
  pub message : String
  pub log_date : Option ℕ
  pub cluster : ℕ
  pub is_anomaly : ℕ
  -- 1.0 or 0.0
  pub anomaly_score : ℕ
  pub label_original : Option ℕ
  pub ingested_at : Option ℕ
  pub processed_at : ℕ
