-- ===== src/Flow.antt =====
-- From the streaming job to the gateway: `_publish_alerts` of src/processing/stream_processor.py writes
-- the messages that `kafka_consumer_loop` of src/api/main.py reads.
pub mod Carried
pub mod OnPage
pub mod Lake
pub mod Twice
pub mod Trends
pub mod Health
pub mod Agreement
mod Tests
use aiops_distributed_log.Prelude.{
  ℕ, Bool, false, List, [], ◌∷◌, String, Option, none, some, Result, ok, ◌≡◌, ◌==◌, string_eq,
}
use aiops_distributed_log.Api.Json.{Json, Fields, field, end, str, num, obj}
use aiops_distributed_log.Api.Alerts.{AlertEvent, Validation, Delivery}
use aiops_distributed_log.Stream.{Processed}
use aiops_distributed_log.Stream.Alerts.{show_opt}
use aiops_distributed_log.Stream.Process.{KafkaAlert}

-- The formats between the two programs: Spark's cast of a time to a text, and its numbers in JSON.
pub record Wire (v : Validation) : Type 0 where
  pub show_time : ℕ → String
  pub whole : ℕ → v.Number

-- What they do: a printed time is not empty, and pydantic takes a whole number for a float and for
-- an int.
pub record IsWire (v : Validation) (wire : Wire v) : Type 0 where
  pub shown : (t : ℕ) → (wire.show_time t == "") ≡ false
  pub float-whole : (n : ℕ) → v.float_field (num (wire.whole n)) ≡ ok (some (wire.whole n))
  pub int-whole : (n : ℕ) → v.int_field (num (wire.whole n)) ≡ ok (some (wire.whole n))

module _ (v : Validation) (wire : Wire v) where
  open v use {Number}
  open wire use {show_time, whole}

  -- `to_json` leaves out the fields that are null.
  abbrev pub opt_text : String → Option String → Fields Number → Fields Number
  opt_text key none rest = rest
  opt_text key (some s) rest = field key (str s) rest

  -- `F.struct(…)` of an alert.
  unfoldable pub alert_fields : KafkaAlert → Fields Number
  alert_fields a = opt_text "timestamp" (show_opt show_time a.timestamp) (
      field "component" (str a.component) (
        opt_text "severity" a.severity (
          field "message" (str a.message) (
            opt_text "host" a.host (
              field "anomaly_score" (num (whole a.anomaly_score))
                (field "cluster_id" (num (whole a.cluster_id)) end))))))

  -- The deliveries bring the alerts on the topic, one after the other: `json.loads` reads back what
  -- `to_json` wrote.
  abbrev pub Carries : List Delivery → List KafkaAlert → Type 0
  Carries [] [] = Unit
  Carries [] (a ∷ topic) = ⊥
  Carries (d ∷ ds) [] = ⊥
  Carries (d ∷ ds) (a ∷ topic) = (v.loads d.raw ≡ some (obj (alert_fields a))) × Carries ds topic

  -- What a client should see of an anomalous row.
  abbrev pub event_of : Processed → String → AlertEvent Number
  event_of r now = record {
    timestamp = show_opt show_time r.event_time;
    component = some r.component;
    severity = r.severity;
    message = some r.message;
    host = r.host;
    anomaly_score = some (whole r.anomaly_score);
    cluster_id = some (whole r.cluster);
    received_at = now;
  }

  -- The rows with the times at which their messages are handled, as payloads.
  abbrev pub shown_to_clients : List Delivery → List Processed → List String
  shown_to_clients (d ∷ ds) (r ∷ rs) = v.model_dump_json (event_of r d.now) ∷ shown_to_clients ds rs
  shown_to_clients [] rs = []
  shown_to_clients (d ∷ ds) [] = []
