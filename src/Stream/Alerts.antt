-- ===== src/Stream/Alerts.antt =====
-- src/processing/stream_processor.py, `_write_anomaly_alerts_pg`: the anomalies of a batch go to
-- PostgreSQL in one transaction, in which the exception of a row is caught row by row.
pub mod Stored
use aiops_distributed_log.Prelude.{
  ℕ, ◌+◌, List, [], ◌∷◌, String, Option, none, some, Result, ok, err, is_ok, if◌then◌else◌, map,
}
use aiops_distributed_log.Postgres.{Psycopg}
use aiops_distributed_log.Tables.Rows.{AlertRow, insert_alert}
use aiops_distributed_log.Stream.{Processed}

-- `str(row["event_time"]) if row["event_time"] else None`
abbrev pub show_opt : (ℕ → String) → Option ℕ → Option String
show_opt show_time none = none
show_opt show_time (some t) = some (show_time t)

-- The tuple of the statement, with the uuid drawn for the row.
abbrev pub alert_tuple : (ℕ → String) → String × Processed → AlertRow ℕ
alert_tuple show_time (uuid, row) = record {
  alert_id = uuid;
  event_time = show_opt show_time row.event_time;
  component = some row.component;
  severity = row.severity;
  message = some row.message;
  host = row.host;
  anomaly_score = some row.anomaly_score;
  cluster_id = some row.cluster;
}

module _ (p : Psycopg (List (AlertRow ℕ))) (show_time : ℕ → String) where
  open p use {Conn, connect, execute, commit}

  abbrev pub insertion : String × Processed → List (AlertRow ℕ) → List (AlertRow ℕ)
  insertion r = insert_alert (alert_tuple show_time r)

  -- The loop with its own handler: what a row raises is logged, and the loop goes on.
  unfoldable pub insert_rows : List (String × Processed) → Conn → ℕ → Conn × ℕ
  insert_rows [] c inserted = (c, inserted)
  insert_rows (r ∷ rs) c inserted =
      let (result, c') = execute (insertion r) c in
      insert_rows rs c' (if is_ok result then inserted + 1 else inserted)

  -- The count that the last line logs, if it is reached, and the table afterwards.
  unfoldable pub write_anomaly_alerts :
      List (String × Processed) → List (AlertRow ℕ) → Option ℕ × List (AlertRow ℕ)
  unfolding insert_rows
  write_anomaly_alerts [] table = (none, table)
  write_anomaly_alerts (r ∷ rs) table = elim (connect table) [
    | err e ↦ (none, table)
    | ok c ↦
        let (c', inserted) = insert_rows (r ∷ rs) c 0 in
        let (result, table') = commit c' in
        elim result [ ok _ ↦ (some inserted, table') | err e ↦ (none, table') ]
  ]
