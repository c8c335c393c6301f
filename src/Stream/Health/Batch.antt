-- ===== src/Stream/Health/Batch.antt =====
-- One batch through `_update_component_health` of src/processing/stream_processor.py.
use aiops_distributed_log.Prelude.{
  ◌+◌, ◌≡◌, refl, List, [], ◌∷◌, String, Result, ok, err, arith, ◌==◌, string_eq, ◌∙◌,
}
use aiops_distributed_log.Floats.{Floats}
use aiops_distributed_log.Postgres.{Psycopg, IsPsycopg, apply_all}
use aiops_distributed_log.Tables.{group_by}
use aiops_distributed_log.Tables.Groups.{sum_groups-group_by}
use aiops_distributed_log.Tables.Rows.{HealthRow}
use aiops_distributed_log.Stream.{Processed}
use aiops_distributed_log.Stream.Transactions.{transaction, transaction_lem}
use aiops_distributed_log.Stream.Health.{upsert, health_rows, write_health, update_component_health}
use aiops_distributed_log.Stream.Health.Totals.{
  at, at-apply_all, HasKeys, apply_all-HasKeys, events-health_rows, anomalies-health_rows,
  events_of, anomalies_of,
}

module _ (fl : Floats) (p : Psycopg (List (HealthRow fl.F))) (is : IsPsycopg p) where
  open fl use {F}

  -- The outcome of the block between `connect` and the handler.
  abbrev pub outcome : List Processed → List (HealthRow F) → Result (Unit {0})
  outcome df table = (transaction p (upsert fl) (health_rows fl df) table).0

  events-health :
      (c : String) (df : List Processed)
      → at fl (λ r. r.total_events) c (health_rows fl df) ≡ events_of c df
  unfolding health_rows
  events-health c df =
      events-health_rows fl c (group_by (λ r. r.component) df)
      ∙ sum_groups-group_by (λ (r : Processed). r.component) (λ k. k == c) (λ r. 1) df

  anomalies-health :
      (c : String) (df : List Processed)
      → at fl (λ r. r.total_anomalies) c (health_rows fl df) ≡ anomalies_of c df
  unfolding health_rows
  anomalies-health c df =
      anomalies-health_rows fl c (group_by (λ r. r.component) df)
      ∙ sum_groups-group_by (λ (r : Processed). r.component) (λ k. k == c) (λ r. r.is_anomaly) df

  written :
      (rows table : List (HealthRow F))
      → write_health fl p rows table ≡ elim (transaction p (upsert fl) rows table).0 [
        | ok _ ↦ apply_all (upsert fl) rows table
        | err e ↦ table
      ]
  unfolding write_health
  written [] table = ground arith
  written (r ∷ rs) table = transaction_lem p (upsert fl) is (r ∷ rs) table

  pub applied :
      (df : List Processed) (table : List (HealthRow F))
      → outcome df table ≡ ok tt
      → update_component_health fl p df table ≡ apply_all (upsert fl) (health_rows fl df) table
  unfolding update_component_health
  applied df table h = rw (written (health_rows fl df) table, h) refl

  -- When its transaction goes through, a batch adds to each component's totals exactly the
  -- events and the anomalies that it has of that component, whatever the order of the groups
  -- and the components that the table knew; each component still has one row.
  pub update_component_health_lem :
      (df : List Processed) (table : List (HealthRow F)) (c : String)
      → HasKeys fl table
      → outcome df table ≡ ok tt
      → let table' = update_component_health fl p df table in
        (at fl (λ r. r.total_events) c table'
          ≡ at fl (λ r. r.total_events) c table + events_of c df)
        × (at fl (λ r. r.total_anomalies) c table'
            ≡ at fl (λ r. r.total_anomalies) c table + anomalies_of c df)
        × HasKeys fl table'
  update_component_health_lem df table c keys h =
      let rows = health_rows fl df in
      rw (applied df table h) (
        omega (
          arith,
          at-apply_all fl (λ r. r.total_events) (λ old new. refl) c rows table,
          events-health c df,
        ),
        omega (
          arith,
          at-apply_all fl (λ r. r.total_anomalies) (λ old new. refl) c rows table,
          anomalies-health c df,
        ),
        apply_all-HasKeys fl rows table keys,
      )

  -- When anything in it raises, no component's row has changed.
  pub update_component_health-err :
      (df : List Processed) (table : List (HealthRow F)) (e : String)
      → outcome df table ≡ err e
      → update_component_health fl p df table ≡ table
  unfolding update_component_health
  update_component_health-err df table e h = rw (written (health_rows fl df) table, h) refl
