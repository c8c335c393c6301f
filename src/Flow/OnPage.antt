-- ===== src/Flow/OnPage.antt =====
-- An anomaly on its way from the streaming job over the gateway to the demo page.
use aiops_distributed_log.Prelude.{
  ◌+◌, ◌≡◌, refl, ◌∙◌, ap, Bool, List, [], ◌∷◌, ◌++◌, String, map, length, count_if, arith,
}
use mathlib.Core.Path.{subst}
use aiops_distributed_log.Api.Alerts.{AlertEvent, Validation, Delivery, Gateway, handle_messages}
use aiops_distributed_log.Api.Alerts.Interface.{IsValidation}
use aiops_distributed_log.Api.Demo.{Page, Browser, is_fatal}
use aiops_distributed_log.Api.Demo.Shown.{Reads, receive_all, severity_of, text_or, receive_all_lem}
use aiops_distributed_log.Stream.{Processed}
use aiops_distributed_log.Stream.Process.{kafka_alert, publish_alerts, anomalies_of_batch}
use aiops_distributed_log.Stream.Process.Stages.{done}
use aiops_distributed_log.Flow.{Wire, IsWire, Carries, event_of, shown_to_clients}
use aiops_distributed_log.Flow.Carried.{anomalies_carried, published}

module _ (v : Validation) (wire : Wire v) (b : Browser v.Number) where
  open v use {Number, model_dump_json}
  open b use {to_upper}

  -- The alerts that the gateway makes of the rows, with the times at which it handles them.
  unfoldable pub events : List Delivery → List Processed → List (AlertEvent Number)
  events (d ∷ ds) (r ∷ rs) = event_of v wire r d.now ∷ events ds rs
  events [] rs = []
  events (d ∷ ds) [] = []

  -- Whether the page counts the alert of a row as fatal.
  abbrev pub is_fatal_row : Processed → Bool
  is_fatal_row r = is_fatal (to_upper (text_or "INFO" r.severity))

  sent_lem :
      (ds : List Delivery) (rs : List Processed)
      → shown_to_clients v wire ds rs ≡ map model_dump_json (events ds rs)
  unfolding events
  sent_lem [] [] = refl
  sent_lem [] (r ∷ rs) = refl
  sent_lem (d ∷ ds) [] = refl
  sent_lem (d ∷ ds) (r ∷ rs) =
      ap (λ t. model_dump_json (event_of v wire r d.now) ∷ t) (sent_lem ds rs)

  events_lem :
      (ds : List Delivery) (rs : List Processed)
      → Carries v wire ds (map kafka_alert rs)
      → (length (events ds rs) ≡ length rs)
        × (count_if (λ a. is_fatal (severity_of v b a)) (events ds rs) ≡ count_if is_fatal_row rs)
  unfolding events
  events_lem [] [] h = (refl, refl)
  events_lem [] (r ∷ rs) h = absurd h
  events_lem (d ∷ ds) [] h = absurd h
  events_lem (d ∷ ds) (r ∷ rs) h = omega (arith, events_lem ds rs h.1)

  -- The streaming job, the gateway and the page, where the write to Kafka returns, the messages reach
  -- the gateway one by one in the order in which they were written, with texts that `json.loads` and
  -- `JSON.parse` read back, and the page receives what is broadcast meanwhile: the page's total grows
  -- by the number of anomalies of the batch, and its other number by those of them whose severity is
  -- FATAL or ERROR in capitals.
  pub anomalies_on_page :
      (ok_v : IsValidation v) (is : IsWire v wire) (rows : List Processed) (ds : List Delivery)
      (g : Gateway Number) (p : Page)
      → Carries v wire ds (publish_alerts done (anomalies_of_batch rows) [])
      → Reads v b (events ds (anomalies_of_batch rows))
      → (sent : List String) × ((handle_messages v ds g).payloads ≡ g.payloads ++ sent)
        × ((receive_all v b sent p).total ≡ p.total + length (anomalies_of_batch rows))
        × ((receive_all v b sent p).fatal
            ≡ p.fatal + count_if is_fatal_row (anomalies_of_batch rows))
  anomalies_on_page ok_v is rows ds g p h reads =
      let anomalies = anomalies_of_batch rows in
      let sent = shown_to_clients v wire ds anomalies in
      let (size, fatal) =
        events_lem ds anomalies
          (subst (Carries v wire ds) (published v ok_v wire is anomalies) h) in
      let shows = receive_all_lem v b (events ds anomalies) p reads in
      let e = sent_lem ds anomalies in
      (
        sent,
        (anomalies_carried v ok_v wire is rows ds g h).0,
        ap (λ t. (receive_all v b t p).total) e ∙ omega (arith, shows.0, size),
        ap (λ t. (receive_all v b t p).fatal) e ∙ omega (arith, shows.1, fatal),
      )
