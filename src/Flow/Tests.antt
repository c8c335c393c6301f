-- ===== src/Flow/Tests.antt =====
-- Runs from the streaming job to the gateway.
use aiops_distributed_log.Prelude.{
  ℕ, ◌+◌, ◌≡◌, refl, true, List, [], ◌∷◌, ◌++◌, none, some, ok, err, length, map, filter, count_if,
  String, ◌==◌, string_eq, if◌then◌else◌,
}
use aiops_distributed_log.Api.Json.{null, num, str, obj, field, end}
use aiops_distributed_log.Api.Alerts.{Validation, Delivery, handle_messages}
use aiops_distributed_log.Api.Alerts.Interface.{IsValidation}
use aiops_distributed_log.Api.Alerts.Tests.{toy, gateway}
use aiops_distributed_log.Stream.{Processed}
use aiops_distributed_log.Stream.Process.{publish_alerts, anomalies_of_batch, with_uuids}
use aiops_distributed_log.Flow.{Wire, IsWire, shown_to_clients, alert_fields}
use aiops_distributed_log.Api.Demo.{Browser, loaded}
use aiops_distributed_log.Api.Demo.Tests.{browser}
use aiops_distributed_log.Api.Demo.Shown.{receive_all, event_json}
use aiops_distributed_log.Flow.OnPage.{events, is_fatal_row, anomalies_on_page}
use aiops_distributed_log.Scripts.Lakehouse.{Table, tables}
use aiops_distributed_log.Scripts.Lakehouse.Schemas.{
  conforms, added, columns, processed_logs_schema,
}
use aiops_distributed_log.Flow.Lake.{processed_row, partition_cols, processed-conforms}
use aiops_distributed_log.Postgres.Scripted.{scripted}
use aiops_distributed_log.Tables.Rows.{AlertRow}
use aiops_distributed_log.Stream.Alerts.{write_anomaly_alerts}
use aiops_distributed_log.Flow.Carried.{anomalies_carried}

-- An undated alert without a severity, the only one of its batch.
abbrev reader : Validation
reader = record toy {
  loads = λ s.
      if s == "A"
      then some (
          obj (
            field "component" (str "RAS") (
              field "message" (str "parity error") (
                field "host" (str "R02")
                  (field "anomaly_score" (num 1) (field "cluster_id" (num 3) end))))))
      else none;
  model_dump_json = λ a. elim a.component [ none ↦ "" | some c ↦ c ];
}

reader-IsValidation : IsValidation reader
reader-IsValidation = record {
  text-null = refl;
  text-str = λ s. refl;
  float-null = refl;
  int-null = refl;
}

abbrev wire : Wire reader
wire = record { show_time = λ t. "2005-06-03"; whole = λ n. n }

wire-IsWire : IsWire reader wire
wire-IsWire = record { shown = λ t. refl; float-whole = λ n. refl; int-whole = λ n. refl }

abbrev row : ℕ → Processed
row flag = record {
  event_id = "e1";
  event_time = none;
  host = some "R02";
  component = "RAS";
  severity = none;
  message = "parity error";
  log_date = none;
  cluster = 3;
  is_anomaly = flag;
  anomaly_score = flag;
  label_original = none;
  ingested_at = none;
  processed_at = 9;
}

abbrev frame : List Processed
frame = row 0 ∷ row 1 ∷ row 0 ∷ []

abbrev deliveries : List Delivery
deliveries =
    record { raw = "A"; now = "12:00"; uuid = "u1"; execute = err "timeout"; send = λ ws. true }
    ∷ []

anomalies_carried_example :
    let out = handle_messages reader deliveries gateway in
    (out.payloads ≡ [] ++ shown_to_clients reader wire deliveries (anomalies_of_batch frame))
    × (out.alerts_received ≡ 5 + length (anomalies_of_batch frame))
unfolding publish_alerts alert_fields
anomalies_carried_example =
    anomalies_carried reader reader-IsValidation wire wire-IsWire frame deliveries gateway
      (refl, tt)

abbrev screen : Browser ℕ
screen = record browser {
  parse = λ s.
      if s == "RAS"
      then some (
          obj (
            field "timestamp" null (
              field "component" (str "RAS") (
                field "severity" null (
                  field "message" (str "parity error") (
                    field "host" (str "R02") (
                      field "anomaly_score" (num 1)
                        (field "cluster_id" (num 3) (field "received_at" (str "12:00") end)))))))))
      else none;
}

anomalies_on_page_example :
    (sent : List String) × ((handle_messages reader deliveries gateway).payloads ≡ [] ++ sent)
    × ((receive_all reader screen sent loaded).total ≡ 0 + length (anomalies_of_batch frame))
    × ((receive_all reader screen sent loaded).fatal
        ≡ 0 + count_if (is_fatal_row reader wire screen) (anomalies_of_batch frame))
unfolding publish_alerts alert_fields events event_json
anomalies_on_page_example =
    anomalies_on_page reader wire screen reader-IsValidation wire-IsWire frame deliveries gateway
      loaded (refl, tt) (refl, tt)

processed-conforms_example :
    (conforms processed_logs_schema (processed_row (row 1)) ≡ true)
    × (added processed_logs_schema (columns (processed_row (row 1))) ≡ "label_original" ∷ [])
    × (map (λ (t : Table). t.partition_col) (filter (λ t. t.name == "processed_logs") tables)
        ≡ partition_cols)
processed-conforms_example = processed-conforms (row 1)

abbrev good_deliveries : List Delivery
good_deliveries =
    record { raw = "A"; now = "12:00"; uuid = "u1"; execute = ok tt; send = λ ws. true } ∷ []

abbrev mine : List (String × Processed)
mine = with_uuids ("a1" ∷ []) (anomalies_of_batch frame)

abbrev after_job : List (AlertRow ℕ)
after_job = (write_anomaly_alerts (scripted []) wire.show_time mine []).1
