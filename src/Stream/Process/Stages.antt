-- ===== src/Stream/Process/Stages.antt =====
-- src/processing/stream_processor.py: the frame `processed` of a batch, and the writers to Delta
-- Lake, to Kafka and, over JDBC, to `batch_metrics`.
use aiops_distributed_log.Prelude.{
  ℕ, Bool, true, false, List, [], ◌∷◌, ◌++◌, Option, none, some, String, ◌||◌, nat_beq, any, filter,
  map, length, sum_by, if◌then◌else◌, string_eq, option_eq, nat_eq, pair_eq,
}
use aiops_distributed_log.Tables.{group_by}
use aiops_distributed_log.Tables.Rows.{BatchMetric}
use aiops_distributed_log.Stream.{Event, Processed}

-- A write that returns has appended its rows. One that raises may have left any rows behind.
pub data Write (R : Type 0) : Type 0 where
  done : Write R
  raised : List R → Write R

-- The JDBC write: whether something else than the rows themselves makes it raise, and the rows of
-- the partitions that are in by then.
pub record Jdbc : Type 0 where
  pub fails : Bool
  pub partial : List BatchMetric

-- The fields of an alert on the topic `critical-alerts`.
pub record KafkaAlert : Type 0 where
  pub timestamp : Option ℕ
  pub component : String
  pub severity : Option String
  pub message : String
  pub host : Option String
  pub anomaly_score : ℕ
  pub cluster_id : ℕ

-- `scored.select(…)` for one row.
abbrev pub mark : ℕ → ℕ → String → Event × ℕ → Processed
mark processed_at anomaly_cluster event_id (e, cluster) = record {
  event_id = event_id;
  event_time = e.event_time;
  host = e.host;
  component = e.component;
  severity = e.severity;
  message = e.message;
  log_date = e.log_date;
  cluster = cluster;
  is_anomaly = if nat_beq cluster anomaly_cluster then 1 else 0;
  anomaly_score = if nat_beq cluster anomaly_cluster then 1 else 0;
  label_original = e.label_original;
  ingested_at = e.ingested_at;
  processed_at = processed_at;
}

-- The next of the identifiers that are drawn for the rows.
abbrev pub next_id : List String → String
next_id [] = ""
next_id (i ∷ ids) = i

abbrev pub rest_ids : List String → List String
rest_ids [] = []
rest_ids (i ∷ ids) = ids

unfoldable pub mark_all : List String → ℕ → ℕ → List (Event × ℕ) → List Processed
mark_all ids processed_at anomaly_cluster [] = []
mark_all ids processed_at anomaly_cluster (r ∷ rs) =
    mark processed_at anomaly_cluster (next_id ids) r
    ∷ mark_all (rest_ids ids) processed_at anomaly_cluster rs

abbrev pub with_uuids : List String → List Processed → List (String × Processed)
with_uuids ids [] = []
with_uuids ids (r ∷ rs) = (next_id ids, r) ∷ with_uuids (rest_ids ids) rs

-- `processed.filter(F.col("is_anomaly") == 1)`
abbrev pub anomalies_of_batch : List Processed → List Processed
anomalies_of_batch = filter (λ r. nat_beq r.is_anomaly 1)

unfoldable pub write_delta : Write Processed → List Processed → List Processed → List Processed
write_delta done rows table = table ++ rows
write_delta (raised part) rows table = table ++ part

abbrev pub kafka_alert : Processed → KafkaAlert
kafka_alert r = record {
  timestamp = r.event_time;
  component = r.component;
  severity = r.severity;
  message = r.message;
  host = r.host;
  anomaly_score = r.anomaly_score;
  cluster_id = r.cluster;
}

-- `_publish_alerts`, called only with alerts to publish.
unfoldable pub publish_alerts :
    Write KafkaAlert → List Processed → List KafkaAlert → List KafkaAlert
publish_alerts w [] topic = topic
publish_alerts done (r ∷ rs) topic = topic ++ map kafka_alert (r ∷ rs)
publish_alerts (raised part) (r ∷ rs) topic = topic ++ part

abbrev pub agg_key : Processed → String × (Option ℕ × Option String)
agg_key r = (r.component, (r.log_date, r.severity))

-- The rows of `_write_postgres`, before the table sees them; the date may be null.
unfoldable pub aggregate :
    List Processed → List ((String × (Option ℕ × Option String)) × List Processed)
aggregate df = group_by agg_key df

-- The table's column `log_date` is NOT NULL.
abbrev pub is_undated : Processed → Bool
is_undated r = elim r.log_date [ none ↦ true | some d ↦ false ]

abbrev pub date_of : Option ℕ → ℕ
date_of none = 0
date_of (some d) = d

abbrev pub metric_row : (String × (Option ℕ × Option String)) × List Processed → BatchMetric
metric_row ((c, (d, s)), rows) = record {
  component = c;
  log_date = date_of d;
  severity = s;
  total_events = length rows;
  anomaly_count = sum_by (λ (r : Processed). r.is_anomaly) rows;
}

-- A group without a date is refused by the table, and the write raises; the handler logs it.
unfoldable pub write_postgres : Jdbc → List Processed → List BatchMetric → List BatchMetric
unfolding aggregate
write_postgres j df table =
    let groups = aggregate df in
    if j.fails || any (λ g. elim g.0.1.0 [ none ↦ true | some d ↦ false ]) groups
    then table ++ j.partial
    else table ++ map metric_row groups
