-- ===== src/Flow/Carried.antt =====
-- An anomaly on its way from the streaming job to the clients of the gateway.
use aiops_distributed_log.Prelude.{
  ℕ, ◌+◌, ◌≡◌, refl, List, [], ◌∷◌, ◌++◌, String, Option, none, some, ok, map, length, arith,
}
use mathlib.Core.Path.{subst}
use aiops_distributed_log.Api.Json.{Json, obj, str, null, or_else}
use aiops_distributed_log.Api.Alerts.{
  Validation, Delivery, Gateway, parse_message, build_alert, handle_messages,
}
use aiops_distributed_log.Api.Alerts.Interface.{IsValidation}
use aiops_distributed_log.Api.Alerts.Messages.{alerts_of, payload, handle_messages_lem}
use aiops_distributed_log.Stream.{Processed}
use aiops_distributed_log.Stream.Alerts.{show_opt}
use aiops_distributed_log.Stream.Process.{kafka_alert, publish_alerts, anomalies_of_batch}
use aiops_distributed_log.Stream.Process.Stages.{done}
use aiops_distributed_log.Flow.{Wire, IsWire, alert_fields, Carries, event_of, shown_to_clients}

module _ (v : Validation) (ok_v : IsValidation v) (wire : Wire v) (is : IsWire v wire) where
  open v use {Number}
  open wire use {show_time, whole}

  text : Option String → Json Number
  text none = null
  text (some s) = str s

  text_lem : (s : Option String) → v.text_field (text s) ≡ ok s
  unfolding text
  text_lem none = ok_v.text-null
  text_lem (some s) = ok_v.text-str s

  -- The time is read from its own field.
  time_lem :
      (t : Option ℕ)
      → or_else v.is_zero (text (show_opt show_time t)) null ≡ text (show_opt show_time t)
  unfolding text
  time_lem none = refl
  time_lem (some t) = ground (arith, is.shown t)

  build-parts :
      (t : Option ℕ) (severity host : Option String) (component message : String)
      (score cluster : ℕ) (now : String)
      → build_alert v
          (obj (
            alert_fields v wire (record {
              timestamp = t;
              component = component;
              severity = severity;
              message = message;
              host = host;
              anomaly_score = score;
              cluster_id = cluster;
            })))
          now
        ≡ ok (record {
          timestamp = show_opt show_time t;
          component = some component;
          severity = severity;
          message = some message;
          host = host;
          anomaly_score = some (whole score);
          cluster_id = some (whole cluster);
          received_at = now;
        })
  unfolding build_alert alert_fields text
  build-parts t severity host c m sc cl now = ground (
    arith,
    ok_v.text-null,
    ok_v.text-str c,
    ok_v.text-str m,
    is.float-whole sc,
    is.int-whole cl,
    text_lem severity,
    text_lem host,
    text_lem (show_opt show_time t),
    time_lem t,
  )

  -- The fields of an alert validate to those of its row.
  build-fields :
      (r : Processed) (now : String)
      → build_alert v (obj (alert_fields v wire (kafka_alert r))) now ≡ ok (event_of v wire r now)
  unfolding build_alert alert_fields
  build-fields r now =
      build-parts r.event_time r.severity r.host r.component r.message r.anomaly_score r.cluster now

  pub built :
      (d : Delivery) (r : Processed)
      → v.loads d.raw ≡ some (obj (alert_fields v wire (kafka_alert r)))
      → build_alert v (parse_message v d.raw) d.now ≡ ok (event_of v wire r d.now)
  unfolding parse_message
  built d r h = ground (arith, h, build-fields r d.now)

  carried :
      (ds : List Delivery) (rs : List Processed)
      → Carries v wire ds (map kafka_alert rs)
      → (map (payload v) (alerts_of v ds) ≡ shown_to_clients v wire ds rs)
        × (length (alerts_of v ds) ≡ length rs)
  carried [] [] h = (refl, refl)
  carried [] (r ∷ rs) h = absurd h
  carried (d ∷ ds) [] h = absurd h
  carried (d ∷ ds) (r ∷ rs) h = ground (arith, built d r h.0, carried ds rs h.1)

  pub published : (rs : List Processed) → publish_alerts done rs [] ≡ map kafka_alert rs
  unfolding publish_alerts
  published [] = refl
  published (r ∷ rs) = refl

  -- Where the write to Kafka returns and its messages reach the gateway one by one, in the order in
  -- which they were written, with texts that `json.loads` reads as the fields `to_json` wrote, every
  -- anomaly of the batch is counted once and broadcast once, in order, with the time, component,
  -- severity, message, host, score and cluster of its row: the two programs agree on the names and
  -- the types of the fields, absent ones included.
  pub anomalies_carried :
      (rows : List Processed) (ds : List Delivery) (g : Gateway Number)
      → Carries v wire ds (publish_alerts done (anomalies_of_batch rows) [])
      → let out = handle_messages v ds g in
        (out.payloads ≡ g.payloads ++ shown_to_clients v wire ds (anomalies_of_batch rows))
        × (out.alerts_received ≡ g.alerts_received + length (anomalies_of_batch rows))
  anomalies_carried rows ds g h =
      let anomalies = anomalies_of_batch rows in
      let (shown, counted) =
        carried ds anomalies (subst (Carries v wire ds) (published anomalies) h) in
      let (payloads, received, same) = handle_messages_lem v ds g in ground arith
