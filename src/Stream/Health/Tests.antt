-- ===== src/Stream/Health/Tests.antt =====
-- Runs of `_update_component_health`.
use mathlib.Mathlib.Data.Multiset.Defs.{of_list}
use aiops_distributed_log.Prelude.{ℕ, ◌≡◌, refl, List, [], ◌∷◌, none, some, string_eq}
use aiops_distributed_log.Floats.Fixed.{fixed}
use aiops_distributed_log.Postgres.Scripted.{scripted, scripted-IsPsycopg}
use aiops_distributed_log.Tables.{group_by}
use aiops_distributed_log.Tables.Rows.{HealthRow}
use aiops_distributed_log.Stream.Tests.{rows}
use aiops_distributed_log.Stream.Transactions.{transaction}
use aiops_distributed_log.Stream.Health.{update_component_health, health_rows, upsert}
use aiops_distributed_log.Stream.Health.View.{
  totals, row_of, row_from, recorded, update_component_health-totals,
}

abbrev health : List (HealthRow ℕ)
health =
    record {
      component = "RAS";
      total_events = 4;
      total_anomalies = 2;
      error_rate_pct = none;
      last_seen = none;
      status = "critical";
    }
    ∷ []

-- The two events of RAS in the batch are a bag with one anomaly.
totals_run : totals "RAS" (of_list rows) ≡ (2, 1, some 5)
unfolding totals
totals_run = refl

update_component_health-totals_example :
    row_of fixed "RAS" (update_component_health fixed (scripted []) rows health)
    ≡ recorded fixed
        (row_from fixed "RAS" (totals "RAS" (of_list rows)))
        (row_of fixed "RAS" health)
unfolding transaction health_rows group_by upsert
update_component_health-totals_example =
    update_component_health-totals fixed (scripted []) (scripted-IsPsycopg []) rows health "RAS"
      refl
