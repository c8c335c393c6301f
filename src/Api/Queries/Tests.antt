-- ===== src/Api/Queries/Tests.antt =====
-- Runs of the endpoints.
use aiops_distributed_log.Prelude.{
  ℕ, ◌≡◌, refl, true, List, [], ◌∷◌, String, none, some, ok, ◌==◌, string_eq, nat_eq, pair_eq,
  if◌then◌else◌,
}
use aiops_distributed_log.Tables.{group_by}
use aiops_distributed_log.Tables.Rows.{BatchMetric}
use aiops_distributed_log.Api.Alerts.{AlertRow}
use aiops_distributed_log.Api.Queries.{rows}
use aiops_distributed_log.Api.Alerts.{Delivery}
use aiops_distributed_log.Api.Queries.Recent.{get_recent_alerts, get_recent_alerts_lem}
use aiops_distributed_log.Api.Queries.Summary.{MetricsSummary, get_metrics_summary}

abbrev alert : String → String → String → AlertRow ℕ
alert id component severity = record {
  alert_id = id;
  event_time = none;
  component = some component;
  severity = some severity;
  message = none;
  host = none;
  anomaly_score = none;
  cluster_id = none;
}

abbrev alerts : List (AlertRow ℕ)
alerts = alert "a" "RAS" "FATAL" ∷ alert "b" "APP" "FATAL" ∷ alert "c" "RAS" "INFO" ∷ []

abbrev upper : String → String
upper s = if s == "fatal" then "FATAL" else s

recent_run :
    get_recent_alerts upper (λ xs. xs) true 50 (some "RAS") (some "fatal") alerts
    ≡ rows (alert "a" "RAS" "FATAL" ∷ [])
unfolding get_recent_alerts
recent_run = refl

get_recent_alerts_lem_example :
    get_recent_alerts upper (λ xs. xs) true 50 (some "RAS") (some "fatal") alerts
    ≡ rows (alert "a" "RAS" "FATAL" ∷ [])
get_recent_alerts_lem_example =
    get_recent_alerts_lem upper (λ xs. xs) true 50 (some "RAS") (some "fatal") alerts

abbrev metric : String → ℕ → ℕ → ℕ → BatchMetric
metric c d total anomalies = record {
  component = c;
  log_date = d;
  severity = none;
  total_events = total;
  anomaly_count = anomalies;
}

abbrev metrics : List BatchMetric
metrics = metric "RAS" 3 10 1 ∷ metric "APP" 3 5 0 ∷ metric "RAS" 3 20 4 ∷ []

abbrev summary : List (MetricsSummary ℕ)
summary =
    record {
      component = "RAS";
      log_date = 3;
      total_events = 30;
      anomaly_count = 5;
      anomaly_rate_pct = 5;
    }
    ∷ []

summary_run :
    get_metrics_summary (λ a t. a) (λ xs. xs) true 7 (some "RAS") (ok tt) metrics ≡ rows summary
unfolding get_metrics_summary group_by
summary_run = refl

-- An alert that the consumer has stored, asked for by its component.
abbrev sent : List Delivery
sent =
    record { raw = "A"; now = "12:00"; uuid = "u1"; execute = ok tt; send = λ ws. true }
    ∷ record { raw = "{"; now = "12:01"; uuid = "u2"; execute = ok tt; send = λ ws. true }
    ∷ []

abbrev stored : AlertRow ℕ
stored = record {
  alert_id = "u1";
  event_time = none;
  component = some "RAS";
  severity = none;
  message = none;
  host = none;
  anomaly_score = none;
  cluster_id = some 1;
}

abbrev other : AlertRow ℕ
other = record stored { alert_id = "u2"; component = none; cluster_id = none }
