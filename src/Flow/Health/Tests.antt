-- ===== src/Flow/Health/Tests.antt =====
-- A run of the job as the table of health shows it.
use aiops_distributed_log.Prelude.{ℕ, ◌+◌, ◌≤◌, ◌≡◌, refl, true, List, [], ◌∷◌, some, ok, string_eq}
use aiops_distributed_log.Floats.Fixed.{fixed}
use aiops_distributed_log.Postgres.Scripted.{scripted-IsPsycopg}
use aiops_distributed_log.Tables.{group_by}
use aiops_distributed_log.Tables.Rows.{HealthRow}
use aiops_distributed_log.Api.Queries.{rows}
use aiops_distributed_log.Api.Queries.Summary.{get_component_health}
use aiops_distributed_log.Stream.Enrich.{enrich}
use aiops_distributed_log.Stream.Train.{train_model}
use aiops_distributed_log.Stream.Transactions.{transaction}
use aiops_distributed_log.Stream.Health.{update_component_health, health_rows, upsert}
use aiops_distributed_log.Stream.Health.Totals.{at, events_of, anomalies_of}
use aiops_distributed_log.Stream.Process.{
  new_processor, process, write_all, ensure_trained, score_batch, mark_all,
}
use aiops_distributed_log.Stream.Job.{MicroBatch, main}
use aiops_distributed_log.Stream.Tests.{toy, show_time, answers, empty_sinks, parsers, values}
use aiops_distributed_log.Flow.Health.{recorded_events, AreDatabases, job_health}

abbrev batches : List (MicroBatch ℕ)
batches =
    record { answers = answers []; values = values }
    ∷ record { answers = answers []; values = "now" ∷ "then" ∷ [] }
    ∷ []

abbrev answer : List (HealthRow ℕ)
answer =
    record {
      component = "UNKNOWN";
      total_events = 4;
      total_anomalies = 4;
      error_rate_pct = some 1000000;
      last_seen = some 7;
      status = "critical";
    }
    ∷ []

job_run :
    let table = (main fixed toy show_time parsers batches empty_sinks).1.component_health in
    get_component_health (λ xs. xs) true (ok tt) table ≡ rows answer
unfolding main process write_all mark_all ensure_trained score_batch enrich train_model group_by
    update_component_health transaction health_rows upsert get_component_health
job_run = refl

databases : AreDatabases fixed toy show_time parsers batches
unfolding AreDatabases
databases = (scripted-IsPsycopg [], (scripted-IsPsycopg [], tt))

job_health_example :
    let new = recorded_events fixed toy show_time parsers 0 batches new_processor empty_sinks in
    (at fixed (λ r. r.total_events) "UNKNOWN" answer ≡ 0 + events_of "UNKNOWN" new)
    × (at fixed (λ r. r.total_anomalies) "UNKNOWN" answer ≡ 0 + anomalies_of "UNKNOWN" new)
    × (at fixed (λ r. 1) "UNKNOWN" answer ≤ 1)
job_health_example =
    job_health fixed toy show_time parsers (λ xs. xs) batches empty_sinks "UNKNOWN" (λ f xs. refl)
      databases tt job_run
