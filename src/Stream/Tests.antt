-- ===== src/Stream/Tests.antt =====
-- Runs of the streaming job on a concrete model: messages of one text per cluster.
use aiops_distributed_log.Prelude.{
  ℕ, ◌+◌, ◌≡◌, refl, Bool, true, false, List, [], ◌∷◌, String, none, some, ok, err, arith, map,
  length, filter, ◌==◌, string_eq, if◌then◌else◌, ap,
}
use aiops_distributed_log.Floats.Fixed.{fixed, fixed-IsFloats}
use aiops_distributed_log.Postgres.Scripted.{scripted}
use aiops_distributed_log.Tables.{group_by}
use aiops_distributed_log.Tables.Rows.{insert_alert}
use aiops_distributed_log.Stream.{Event, Processed}
use aiops_distributed_log.Stream.Enrich.{Parsers}
use aiops_distributed_log.Stream.Train.{Ml, IsMl, train_model, choose_cluster, density, denser}
use aiops_distributed_log.Stream.Train.Choice.{choose_cluster-densest, cluster_rows}
use aiops_distributed_log.Stream.Alerts.{write_anomaly_alerts}
use aiops_distributed_log.Stream.Metrics.{confusion, metric_row, is_labelled}
use aiops_distributed_log.Stream.Metrics.Confusion.{
  confusion_lem, predicted, actual, metric_row_bounds, InUnit,
}
use aiops_distributed_log.Stream.Process.{Sinks, Answers}
use aiops_distributed_log.Stream.Process.Stages.{done, raised}

abbrev event : String → String → ℕ → Event
event component' message' label = record {
  alert_code = "-";
  event_time = some 5;
  host = none;
  component = component';
  severity = some "INFO";
  message = message';
  label_original = some label;
  ingested_at = none;
  log_date = some 1;
}

abbrev pub batch : List Event
batch = event "RAS" "ok" 0 ∷ event "RAS" "fault" 1 ∷ event "APP" "ok" 0 ∷ []

abbrev pub cluster_of : Event → ℕ
cluster_of e = if e.message == "fault" then 1 else 0

-- A vector is the cluster itself.
abbrev pub toy : Ml
toy = record {
  Nlp = Unit {0};
  Km = Unit {0};
  Vector = ℕ;
  fit_nlp = λ rows. ok tt;
  vectorize = λ nlp rows. ok (map (λ e. (e, cluster_of e)) rows);
  fit_km = λ rows. ok tt;
  predict = λ km rows. ok rows;
  save = λ nlp km. err "NoSuchBucket";
}

map-pair :
    (rows : List Event) → map (λ (r : Event × ℕ). r.0) (map (λ e. (e, cluster_of e)) rows) ≡ rows
map-pair [] = refl
map-pair (e ∷ rows) = ap (λ xs. e ∷ xs) (map-pair rows)

pub toy-IsMl : IsMl toy
toy-IsMl = record {
  vectorize-rows = λ nlp rows out h. ground (arith, map-pair rows);
  predict-rows = λ km rows out h. ground arith;
}

abbrev pub show_time : ℕ → String
show_time t = "2005-06-03"

train_run : train_model toy batch ≡ ok (tt, tt, 1)
unfolding train_model group_by
train_run = refl

abbrev pub answers : List Bool → Answers ℕ
answers script = record {
  event_ids = "e1" ∷ "e2" ∷ "e3" ∷ [];
  alert_ids = "a1" ∷ [];
  processed_at = 9;
  delta = done;
  kafka = raised [];
  jdbc = record { fails = false; partial = [] };
  alerts_db = scripted script;
  health_db = scripted [];
  metrics_db = scripted [];
}

abbrev pub empty_sinks : Sinks ℕ
empty_sinks = record {
  processed_logs = [];
  critical_alerts = [];
  batch_metrics = [];
  anomaly_alerts = [];
  component_health = [];
  model_metrics = [];
}

abbrev pub r0 : Processed
r0 = record {
  event_id = "e0";
  event_time = some 5;
  host = none;
  component = "RAS";
  severity = some "INFO";
  message = "fault";
  log_date = some 1;
  cluster = 1;
  is_anomaly = 1;
  anomaly_score = 1;
  label_original = some 1;
  ingested_at = none;
  processed_at = 9;
}

abbrev normal : String → String → Processed
normal id component' = record r0 {
  event_id = id;
  component = component';
  message = "ok";
  cluster = 0;
  is_anomaly = 0;
  anomaly_score = 0;
  label_original = some 0;
}

abbrev pub rows : List Processed
rows = normal "e1" "RAS" ∷ r0 ∷ normal "e3" "APP" ∷ []

-- Values: the first and the last carry a message, and one of them no readable time.
abbrev pub parsers : Parsers
parsers = record {
  from_json = λ value. record {
    alert_code = none;
    node_id = none;
    timestamp = some value;
    component = none;
    severity = none;
    message = if value == "broken" then none else some value;
    is_anomaly = some 0;
    ingested_at = none;
  };
  log_time = λ s. if s == "late" then none else some 7;
  ingest_time = λ s. none;
  to_date = λ t. 1;
}

abbrev pub values : List String
values = "now" ∷ "broken" ∷ "late" ∷ []

abbrev pub scored : List (Event × ℕ)
scored = map (λ e. (e, cluster_of e)) batch

choose_cluster-densest_example :
    denser
      (density
        (λ (r : Event × ℕ). r.0.label_original)
        (cluster_rows (λ (r : Event × ℕ). r.0.label_original) (λ r. r.1) 0 scored))
      (density
        (λ (r : Event × ℕ). r.0.label_original)
        (cluster_rows (λ (r : Event × ℕ). r.0.label_original) (λ r. r.1) 1 scored))
    ≡ false
unfolding choose_cluster group_by
choose_cluster-densest_example =
    choose_cluster-densest (λ r. r.0.label_original) (λ r. r.1) scored 0 refl

write_anomaly_alerts_run :
    write_anomaly_alerts
      (scripted (true ∷ false ∷ []))
      show_time
      (("a1", r0) ∷ ("a2", r0) ∷ ("a3", r0) ∷ [])
      []
    ≡ (some 1, [])
unfolding write_anomaly_alerts insert_alert
write_anomaly_alerts_run = refl

confusion_lem_example :
    let eval_df = filter is_labelled rows in
    let cm = confusion eval_df in
    (cm.tp + cm.fp + cm.tn + cm.fn ≡ length eval_df)
    × (cm.tp + cm.fp ≡ predicted eval_df)
    × (cm.tp + cm.fn ≡ actual eval_df)
confusion_lem_example =
    confusion_lem rows
      ((omega arith, omega arith), ((omega arith, omega arith), ((omega arith, omega arith), tt)))

metric_row_bounds_example :
    let m = metric_row fixed 4 (length rows) (confusion rows) in
    InUnit fixed fixed-IsFloats m.accuracy
    × InUnit fixed fixed-IsFloats m.precision_score
    × InUnit fixed fixed-IsFloats m.recall_score
metric_row_bounds_example = metric_row_bounds fixed fixed-IsFloats 4 rows
