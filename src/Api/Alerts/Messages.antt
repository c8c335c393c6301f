-- ===== src/Api/Alerts/Messages.antt =====
-- What a sequence of Kafka messages does to the gateway of src/api/main.py: each message that
-- gives an alert is counted, stored and broadcast, and no failure reaches the next message.
use aiops_distributed_log.Prelude.{
  ◌+◌, ◌≡◌, refl, true, false, none, List, [], ◌∷◌, ◌++◌, String, ok, err, arith, map, any,
  contains, length, append_assoc, append-nil, list_laws, ◌==◌, string_eq, contains-append,
  Result-cases, inl, inr, ==_iff, map-append, ◌∙◌,
}
use aiops_distributed_log.Api.Alerts.{
  AlertEvent, Validation, AlertRow, Delivery, Gateway, parse_message, build_alert, alert_row,
  accept_alert, handle_message, handle_messages,
}
use aiops_distributed_log.Api.Alerts.Interface.{IsValidation}

module _ (v : Validation) where
  open v use {Number, loads, model_dump_json}

  -- The alerts that the messages give, with their messages.
  abbrev pub alerts_of : List Delivery → List (Delivery × AlertEvent Number)
  alerts_of [] = []
  alerts_of (d ∷ ds) = elim (build_alert v (parse_message v d.raw) d.now) [
    | ok alert ↦ (d, alert) ∷ alerts_of ds
    | err e ↦ alerts_of ds
  ]

  -- The rows of the alerts whose statement goes through.
  abbrev pub stored_rows : List (Delivery × AlertEvent Number) → List (AlertRow Number)
  stored_rows [] = []
  stored_rows ((d, alert) ∷ rest) = elim d.execute [
    | ok _ ↦ alert_row v d.uuid alert ∷ stored_rows rest
    | err e ↦ stored_rows rest
  ]

  abbrev pub payload : Delivery × AlertEvent Number → String
  payload (d, alert) = model_dump_json alert

  payloads-accept :
      (d : Delivery) (alert : AlertEvent Number) (g : Gateway Number)
      → (accept_alert v d alert g).payloads ≡ g.payloads ++ model_dump_json alert ∷ []
  unfolding accept_alert
  payloads-accept d alert g = ground arith

  received-accept :
      (d : Delivery) (alert : AlertEvent Number) (g : Gateway Number)
      → (accept_alert v d alert g).alerts_received ≡ g.alerts_received + 1
  unfolding accept_alert
  received-accept d alert g = ground arith

  pool-accept :
      (d : Delivery) (alert : AlertEvent Number) (g : Gateway Number)
      → (accept_alert v d alert g).has_pool ≡ g.has_pool
  unfolding accept_alert
  pool-accept d alert g = ground arith

  consumer-accept :
      (d : Delivery) (alert : AlertEvent Number) (g : Gateway Number)
      → (accept_alert v d alert g).has_consumer ≡ g.has_consumer
  unfolding accept_alert
  consumer-accept d alert g = ground arith

  -- Every message that gives an alert is counted and broadcast, in order, whatever the database
  -- and the clients do and whatever the messages before it were.
  pub handle_messages_lem :
      (ds : List Delivery) (g : Gateway Number)
      → ((handle_messages v ds g).payloads ≡ g.payloads ++ map payload (alerts_of ds))
        × ((handle_messages v ds g).alerts_received ≡ g.alerts_received + length (alerts_of ds))
        × ((handle_messages v ds g).has_consumer ≡ g.has_consumer)
  unfolding handle_messages handle_message
  handle_messages_lem [] g = ground (arith, append-nil g.payloads)
  handle_messages_lem (d ∷ ds) g =
      elim (Result-cases (build_alert v (parse_message v d.raw) d.now)) [
        | inl (alert, e) ↦ grind (
          arith,
          list_laws,
          handle_messages_lem ds (accept_alert v d alert g),
          payloads-accept d alert g,
          received-accept d alert g,
          consumer-accept d alert g,
        )
        | inr (x, e) ↦ ground (arith, handle_messages_lem ds g)
      ]

  -- The uuids are new to the table and to one another.
  abbrev pub AreFresh : List String → List Delivery → Type 0
  AreFresh used [] = Unit
  AreFresh used (d ∷ ds) = (contains used d.uuid ≡ false) × AreFresh (used ++ d.uuid ∷ []) ds

  abbrev pub ids : List (AlertRow Number) → List String
  ids = map (λ r. r.alert_id)

  any-ids :
      (table : List (AlertRow Number)) (uuid : String)
      → any (λ r. r.alert_id == uuid) table ≡ contains (ids table) uuid
  any-ids [] uuid = refl
  any-ids (r ∷ table) uuid =
      ground (arith, ==_iff r.alert_id uuid, ==_iff uuid r.alert_id, any-ids table uuid)

  -- One statement on a fresh uuid: the row is added where there is a pool and nothing raises.
  alerts-accept :
      (d : Delivery) (alert : AlertEvent Number) (g : Gateway Number)
      → g.has_pool ≡ true
      → contains (ids g.alerts) d.uuid ≡ false
      → (accept_alert v d alert g).alerts ≡ g.alerts ++ stored_rows ((d, alert) ∷ [])
  unfolding accept_alert
  alerts-accept d alert g pool fresh = ground (arith, any-ids g.alerts d.uuid, append-nil g.alerts)

  Covers : List String → List (AlertRow Number) → Type 0
  Covers used table = (x : String) → contains used x ≡ false → contains (ids table) x ≡ false

  Covers-snoc :
      (used : List String) (table rows : List (AlertRow Number)) (uuid : String)
      → Covers used table
      → ((x : String) → (x == uuid) ≡ false → contains (ids rows) x ≡ false)
      → Covers (used ++ uuid ∷ []) (table ++ rows)
  unfolding Covers
  Covers-snoc used table rows uuid h k x e = rw (map-append (λ r. r.alert_id) table rows) (
      ground (
        arith,
        contains-append used (uuid ∷ []) x,
        contains-append (ids table) (ids rows) x,
        h x,
        k x,
      ))

  only_uuid :
      (d : Delivery) (alert : AlertEvent Number) (x : String)
      → (x == d.uuid) ≡ false
      → contains (ids (stored_rows ((d, alert) ∷ []))) x ≡ false
  only_uuid d alert x h = ground arith

  Covers-weaken :
      (used : List String) (table : List (AlertRow Number)) (uuid : String)
      → Covers used table
      → Covers (used ++ uuid ∷ []) table
  unfolding Covers
  Covers-weaken used table uuid h x e = ground (arith, contains-append used (uuid ∷ []) x, h x)

  stored_rows-cons :
      (d : Delivery) (alert : AlertEvent Number) (rest : List (Delivery × AlertEvent Number))
      → stored_rows ((d, alert) ∷ rest) ≡ stored_rows ((d, alert) ∷ []) ++ stored_rows rest
  stored_rows-cons d alert rest = ground arith

  -- With fresh uuids and a pool, the table gains exactly the rows whose statement goes through,
  -- in the order of the messages: a statement that raises loses its own row only.
  alerts-handle_messages_from :
      (used : List String) (ds : List Delivery) (g : Gateway Number)
      → g.has_pool ≡ true
      → AreFresh used ds
      → Covers used g.alerts
      → (handle_messages v ds g).alerts ≡ g.alerts ++ stored_rows (alerts_of ds)
  unfolding handle_messages handle_message Covers
  alerts-handle_messages_from used [] g pool fresh cover = ground (arith, append-nil g.alerts)
  alerts-handle_messages_from used (d ∷ ds) g pool fresh cover =
      elim (Result-cases (build_alert v (parse_message v d.raw) d.now)) [
        | inl (alert, e) ↦
            let added = alerts-accept d alert g pool (cover d.uuid fresh.0) in
            ground (
              arith,
              alerts-handle_messages_from (used ++ d.uuid ∷ []) ds (accept_alert v d alert g)
                  (pool-accept d alert g ∙ pool) fresh.1
                  (rw added (
                    Covers-snoc used g.alerts (stored_rows ((d, alert) ∷ [])) d.uuid cover
                      (only_uuid d alert))),
              added,
              stored_rows-cons d alert (alerts_of ds),
              append_assoc g.alerts (stored_rows ((d, alert) ∷ [])) (stored_rows (alerts_of ds)),
            )
        | inr (x, e) ↦ ground (
          arith,
          alerts-handle_messages_from (used ++ d.uuid ∷ []) ds g pool fresh.1
              (Covers-weaken used g.alerts d.uuid cover),
        )
      ]

  -- With uuids that are new to the table and to one another, and with a pool, the table gains
  -- exactly the rows of the alerts whose statement goes through, in the order of the messages:
  -- a statement that raises loses its own row only. Equal messages are stored once each.
  pub alerts-handle_messages :
      (ds : List Delivery) (g : Gateway Number)
      → g.has_pool ≡ true
      → AreFresh (ids g.alerts) ds
      → (handle_messages v ds g).alerts ≡ g.alerts ++ stored_rows (alerts_of ds)
  unfolding Covers
  alerts-handle_messages ds g pool fresh =
      alerts-handle_messages_from (ids g.alerts) ds g pool fresh (λ x h. h)

  -- A payload that is no JSON is wrapped as `{"raw": …}`, of which the alert keeps nothing: what
  -- is counted, stored and broadcast is an alert with every optional field empty.
  pub handle_message-not_json :
      (ok_v : IsValidation v) (d : Delivery) (g : Gateway Number)
      → loads d.raw ≡ none
      → handle_message v d g
        ≡ accept_alert v d
            (record {
              timestamp = none;
              component = none;
              severity = none;
              message = none;
              host = none;
              anomaly_score = none;
              cluster_id = none;
              received_at = d.now;
            })
            g
  unfolding handle_message
  handle_message-not_json ok_v d g h = ground arith
