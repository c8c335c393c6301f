-- ===== src/Flow/Twice.antt =====
-- The two writers of `anomaly_alerts_pg`: `_write_anomaly_alerts_pg` of
-- src/processing/stream_processor.py, and the gateway of src/api/main.py, which gets the same anomalies
-- over Kafka.
use aiops_distributed_log.Prelude.{
  ℕ, ◌≡◌, false, List, [], ◌∷◌, ◌++◌, String, Option, none, some, ok, any, ◌==◌, string_eq,
}
use aiops_distributed_log.Tables.Rows.{AlertRow}
use aiops_distributed_log.Api.Alerts.{Validation, Delivery}
use aiops_distributed_log.Stream.{Processed}
use aiops_distributed_log.Stream.Alerts.{alert_tuple}
use aiops_distributed_log.Flow.{Wire}

-- A row less its identifier.
abbrev pub forget : {N : Type 0} → AlertRow N → AlertRow N
forget r = record r { alert_id = "" }

module _ (show_time : ℕ → String) where
  -- Every identifier is new to the table and to the rows before it.
  abbrev pub AreNew : List (String × Processed) → List (AlertRow ℕ) → Type 0
  AreNew [] table = Unit
  AreNew (r ∷ rs) table =
      (any (λ x. x.alert_id == r.0) table ≡ false)
      × AreNew rs (table ++ alert_tuple show_time r ∷ [])

module _ (v : Validation) (wire : Wire v) where
  open v use {Number}
  open wire use {show_time, whole}

  -- A row of the streaming job, with its numbers as the gateway writes them.
  abbrev pub as_number : Option ℕ → Option Number
  as_number none = none
  as_number (some n) = some (whole n)

  abbrev pub as_gateway : AlertRow ℕ → AlertRow Number
  as_gateway r = record {
    alert_id = r.alert_id;
    event_time = r.event_time;
    component = r.component;
    severity = r.severity;
    message = r.message;
    host = r.host;
    anomaly_score = as_number r.anomaly_score;
    cluster_id = as_number r.cluster_id;
  }

  -- What both writers store of an anomaly.
  abbrev pub stored_facts : Processed → AlertRow Number
  stored_facts r = as_gateway (alert_tuple show_time ("", r))

  -- Every statement of the gateway goes through.
  abbrev pub AllGo : List Delivery → Type 0
  AllGo [] = Unit
  AllGo (d ∷ ds) = (d.execute ≡ ok tt) × AllGo ds
