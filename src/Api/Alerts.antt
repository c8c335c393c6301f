-- ===== src/Api/Alerts.antt =====
-- src/api/main.py, `AlertEvent`, and the body of `kafka_consumer_loop` for one message: parse,
-- validate, count, store, broadcast. Pydantic's validation and printing, `json.loads`, and the
-- numbers are the interface `Validation`.
pub mod Interface
pub mod Messages
pub mod Loop
pub mod Tests
use aiops_distributed_log.Prelude.{
  ℕ, ◌+◌, Bool, true, false, Option, none, some, List, [], ◌∷◌, ◌++◌, String, Result, ok, err,
  ◌>>=◌, any, ◌==◌, string_eq, if◌then◌else◌, ◌≡◌,
}
use aiops_distributed_log.Api.Json.{Json, Fields, end, field, str, obj, get, or_else}
use aiops_distributed_log.Api.Connections.{WebSocket, Manager, broadcast}
pub use Interface.{AlertEvent, Validation}
pub use aiops_distributed_log.Tables.Rows.{AlertRow}
unfoldable pub use aiops_distributed_log.Tables.Rows.{insert_alert}

-- One Kafka message, with what the surroundings answer while it is handled: the clock, the
-- fresh uuid, whether the statement goes through, and which clients take the broadcast.
pub record Delivery : Type 0 where
  pub raw : String
  pub now : String
  pub uuid : String
  pub execute : Result (Unit {0})
  pub send : WebSocket → Bool

-- The state that the gateway's tasks share, with the table that its pool leads to.
pub record Gateway (N : Type 0) : Type 0 where
  pub has_pool : Bool
  pub has_consumer : Bool
  pub manager : Manager
  -- the counter ALERTS_RECEIVED_TOTAL
  pub alerts_received : ℕ
  pub alerts : List (AlertRow N)
  -- the payloads handed to `manager.broadcast`, in order
  pub payloads : List String

module _ (v : Validation) where
  open v use {Number, is_zero, loads, text_field, float_field, int_field, model_dump_json}

  -- `json.loads(raw)`, or `{"raw": raw}` where that raises.
  unfoldable pub parse_message : String → Json Number
  parse_message raw = elim (loads raw) [
    | some data' ↦ data'
    | none ↦ obj (field "raw" (str raw) end)
  ]

  unfoldable pub build_alert : Json Number → String → Result (AlertEvent Number)
  build_alert data' received_at = do
    timestamp ← get data' "timestamp"
    event_time ← get data' "event_time"
    component ← get data' "component"
    severity ← get data' "severity"
    message ← get data' "message"
    host ← get data' "host"
    anomaly_score ← get data' "anomaly_score"
    cluster_id ← get data' "cluster_id"
    timestamp' ← text_field (or_else is_zero timestamp event_time)
    component' ← text_field component
    severity' ← text_field severity
    message' ← text_field message
    host' ← text_field host
    anomaly_score' ← float_field anomaly_score
    cluster_id' ← int_field cluster_id
    ok (record {
      timestamp = timestamp';
      component = component';
      severity = severity';
      message = message';
      host = host';
      anomaly_score = anomaly_score';
      cluster_id = cluster_id';
      received_at = received_at;
    })

  abbrev pub alert_row : String → AlertEvent Number → AlertRow Number
  alert_row uuid alert = record {
    alert_id = uuid;
    event_time = alert.timestamp;
    component = alert.component;
    severity = alert.severity;
    message = alert.message;
    host = alert.host;
    anomaly_score = alert.anomaly_score;
    cluster_id = alert.cluster_id;
  }

  -- The insert, if there is a pool; what it raises is logged and dropped.
  unfoldable pub store_alert : Delivery → AlertEvent Number → Gateway Number → Gateway Number
  unfolding insert_alert
  store_alert d alert g =
      if g.has_pool
      then elim d.execute [
        | ok _ ↦ record g { alerts = insert_alert (alert_row d.uuid alert) g.alerts }
        | err e ↦ g
      ]
      else g

  unfoldable pub publish : Delivery → AlertEvent Number → Gateway Number → Gateway Number
  publish d alert g = record g {
    manager = broadcast d.send g.manager;
    payloads = g.payloads ++ model_dump_json alert ∷ [];
  }

  -- What stands behind the construction of the alert.
  unfoldable pub accept_alert : Delivery → AlertEvent Number → Gateway Number → Gateway Number
  unfolding store_alert publish
  accept_alert d alert g =
      publish d alert (store_alert d alert (record g { alerts_received = g.alerts_received + 1 }))

  -- The body of `async for`: what the construction raises is logged, and the loop goes on.
  unfoldable pub handle_message : Delivery → Gateway Number → Gateway Number
  unfolding parse_message build_alert accept_alert
  handle_message d g = elim (build_alert (parse_message d.raw) d.now) [
    | ok alert ↦ accept_alert d alert g
    | err e ↦ g
  ]

  unfoldable pub handle_messages : List Delivery → Gateway Number → Gateway Number
  unfolding handle_message
  handle_messages [] g = g
  handle_messages (d ∷ ds) g = handle_messages ds (handle_message d g)
