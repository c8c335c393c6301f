-- ===== src/Tables/Rows.antt =====
-- docker/postgres/init.sql: the rows of the tables that the Python code writes and reads, less
-- serial numbers and default timestamps. A date and a time stamp are numbers; `F` is the type of
-- DOUBLE PRECISION.
use aiops_distributed_log.Prelude.{
  ℕ, String, Option, List, [], ◌∷◌, ◌++◌, any, ◌==◌, string_eq, if◌then◌else◌,
}

pub record BatchMetric : Type 0 where
  pub component : String
  pub log_date : ℕ
  pub severity : Option String
  pub total_events : ℕ
  pub anomaly_count : ℕ

pub record HealthRow (F : Type 0) : Type 0 where
  pub component : String
  pub total_events : ℕ
  pub total_anomalies : ℕ
  pub error_rate_pct : Option F
  pub last_seen : Option ℕ
  pub status : String

pub record ModelMetric (F : Type 0) : Type 0 where
  pub batch_id : ℕ
  pub total_count : ℕ
  pub accuracy : F
  pub precision_score : F
  pub recall_score : F
  pub f1_score : F
  pub true_positives : ℕ
  pub false_positives : ℕ
  pub true_negatives : ℕ
  pub false_negatives : ℕ

pub record AlertSummary (F : Type 0) : Type 0 where
  pub summary_date : ℕ
  pub component : String
  pub alert_count : ℕ
  pub event_count : ℕ
  pub anomaly_rate : Option F

-- A row of the table `anomaly_alerts_pg`, less its serial number and its time of creation.
pub record AlertRow (N : Type 0) : Type 0 where
  pub alert_id : String
  pub event_time : Option String
  pub component : Option String
  pub severity : Option String
  pub message : Option String
  pub host : Option String
  pub anomaly_score : Option N
  pub cluster_id : Option N

-- `INSERT … ON CONFLICT DO NOTHING`: `alert_id` is the table's unique column.
unfoldable pub insert_alert : {N : Type 0} → AlertRow N → List (AlertRow N) → List (AlertRow N)
insert_alert row table =
    if any (λ r. r.alert_id == row.alert_id) table then table else table ++ row ∷ []
