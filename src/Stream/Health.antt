-- ===== src/Stream/Health.antt =====
-- src/processing/stream_processor.py, `_update_component_health`: the totals of a batch for each
-- component, its status, and the upsert into `component_health`.
pub mod Totals
pub mod Batch
pub mod Status
pub mod View
mod Tests
use aiops_distributed_log.Prelude.{
  ℕ, ◌+◌, Bool, true, false, List, [], ◌∷◌, String, Option, none, some, Result, max, ltb, ◌==◌,
  string_eq, map, length, sum_by, if◌then◌else◌,
}
use aiops_distributed_log.Floats.{Floats}
use aiops_distributed_log.Postgres.{Psycopg}
use aiops_distributed_log.Tables.{group_by}
use aiops_distributed_log.Tables.Rows.{HealthRow}
use aiops_distributed_log.Stream.{Processed}
use aiops_distributed_log.Stream.Transactions.{transaction}

-- `F.max` and SQL's `GREATEST`: nulls do not count.
abbrev pub greatest : Option ℕ → Option ℕ → Option ℕ
greatest none b = b
greatest (some a) none = some a
greatest (some a) (some b) = some (max a b)

abbrev pub latest : List Processed → Option ℕ
latest [] = none
latest (r ∷ rs) = greatest r.event_time (latest rs)

module _ (fl : Floats) where
  open fl use {F, of_ℕ, quotient, times, round2, gt}

  -- `round((total_an / total_ev * 100), 2) if total_ev > 0 else 0.0`
  unfoldable pub error_rate : ℕ → ℕ → F
  error_rate total_an total_ev =
      if ltb 0 total_ev then round2 (times (quotient total_an total_ev) (of_ℕ 100)) else of_ℕ 0

  unfoldable pub derive_status : F → String
  derive_status rate =
      if gt rate (of_ℕ 10) then "critical" else if gt rate (of_ℕ 2) then "warning" else "healthy"

  -- The values of the statement for one group of `groupBy("component")`.
  unfoldable pub health_row : String × List Processed → HealthRow F
  unfolding error_rate derive_status
  health_row (component, rows) =
      let total_ev = length rows in
      let total_an = sum_by (λ (r : Processed). r.is_anomaly) rows in
      let rate = error_rate total_an total_ev in
      record {
        component = component;
        total_events = total_ev;
        total_anomalies = total_an;
        error_rate_pct = some rate;
        last_seen = latest rows;
        status = derive_status rate;
      }

  -- `ON CONFLICT (component) DO UPDATE SET …`
  abbrev pub merge : HealthRow F → HealthRow F → HealthRow F
  merge old excluded = record {
    component = old.component;
    total_events = old.total_events + excluded.total_events;
    total_anomalies = old.total_anomalies + excluded.total_anomalies;
    error_rate_pct = excluded.error_rate_pct;
    last_seen = greatest old.last_seen excluded.last_seen;
    status = excluded.status;
  }

  unfoldable pub upsert : HealthRow F → List (HealthRow F) → List (HealthRow F)
  upsert row [] = row ∷ []
  upsert row (old ∷ table) =
      if old.component == row.component then merge old row ∷ table else old ∷ upsert row table

  unfoldable pub health_rows : List Processed → List (HealthRow F)
  unfolding health_row
  health_rows df = map health_row (group_by (λ r. r.component) df)

  -- Without groups the method returns before it connects.
  unfoldable pub write_health :
      Psycopg (List (HealthRow F)) → List (HealthRow F) → List (HealthRow F) → List (HealthRow F)
  unfolding upsert
  write_health p [] table = table
  write_health p (r ∷ rs) table = (transaction p upsert (r ∷ rs) table).1

  unfoldable pub update_component_health :
      Psycopg (List (HealthRow F)) → List Processed → List (HealthRow F) → List (HealthRow F)
  unfolding health_rows write_health
  update_component_health p df table = write_health p (health_rows df) table
