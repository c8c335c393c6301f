-- ===== src/Flow/Agreement/Tests.antt =====
-- A run of the job as both endpoints show it.
use aiops_distributed_log.Prelude.{ℕ, ◌≡◌, refl, true, List, [], ◌∷◌, some, ok, sum_by, string_eq}
use aiops_distributed_log.Floats.Fixed.{fixed}
use aiops_distributed_log.Postgres.Scripted.{scripted-IsPsycopg}
use aiops_distributed_log.Tables.{group_by}
use aiops_distributed_log.Tables.Rows.{HealthRow}
use aiops_distributed_log.Api.Queries.{rows}
use aiops_distributed_log.Api.Queries.Summary.{
  MetricsSummary, get_metrics_summary, get_component_health,
}
use aiops_distributed_log.Stream.Enrich.{enrich}
use aiops_distributed_log.Stream.Train.{train_model}
use aiops_distributed_log.Stream.Transactions.{transaction}
use aiops_distributed_log.Stream.Health.{update_component_health, health_rows, upsert}
use aiops_distributed_log.Stream.Health.Totals.{at}
use aiops_distributed_log.Stream.Process.{
  new_processor, process, write_all, ensure_trained, score_batch, mark_all, write_postgres,
}
use aiops_distributed_log.Stream.Job.{MicroBatch, main}
use aiops_distributed_log.Stream.Tests.{toy, toy-IsMl, show_time, answers, empty_sinks, parsers}
use aiops_distributed_log.Flow.Health.{AreDatabases}
use aiops_distributed_log.Flow.Agreement.{NoneFails, endpoints_agree}

abbrev batches : List (MicroBatch ℕ)
batches =
    record { answers = answers []; values = "now" ∷ "then" ∷ [] }
    ∷ record { answers = answers []; values = "again" ∷ [] }
    ∷ []

abbrev summaries : List (MetricsSummary ℕ)
summaries =
    record {
      component = "UNKNOWN";
      log_date = 1;
      total_events = 3;
      anomaly_count = 3;
      anomaly_rate_pct = 3;
    }
    ∷ []

abbrev health : List (HealthRow ℕ)
health =
    record {
      component = "UNKNOWN";
      total_events = 3;
      total_anomalies = 3;
      error_rate_pct = some 1000000;
      last_seen = some 7;
      status = "critical";
    }
    ∷ []

trends_run :
    let table = (main fixed toy show_time parsers batches empty_sinks).1.batch_metrics in
    get_metrics_summary (λ a t. a) (λ xs. xs) true 7 (some "UNKNOWN") (ok tt) table ≡ rows summaries
unfolding main process write_all mark_all ensure_trained score_batch enrich train_model group_by
    write_postgres get_metrics_summary
trends_run = refl

health_run :
    let table = (main fixed toy show_time parsers batches empty_sinks).1.component_health in
    get_component_health (λ xs. xs) true (ok tt) table ≡ rows health
unfolding main process write_all mark_all ensure_trained score_batch enrich train_model group_by
    update_component_health transaction health_rows upsert get_component_health
health_run = refl

databases : AreDatabases fixed toy show_time parsers batches
unfolding AreDatabases
databases = (scripted-IsPsycopg [], (scripted-IsPsycopg [], tt))

none_fails : NoneFails fixed toy show_time parsers 0 batches new_processor empty_sinks
unfolding NoneFails process write_all mark_all ensure_trained score_batch enrich train_model
    group_by update_component_health transaction health_rows upsert
none_fails = (refl, refl, refl, (refl, refl, refl, tt))

endpoints_agree_example :
    (sum_by (λ x. x.total_events) summaries ≡ at fixed (λ r. r.total_events) "UNKNOWN" health)
    × (sum_by (λ x. x.anomaly_count) summaries ≡ at fixed (λ r. r.total_anomalies) "UNKNOWN" health)
endpoints_agree_example =
    endpoints_agree fixed toy show_time parsers (λ a t. a) (λ xs. xs) (λ xs. xs) 7 "UNKNOWN" batches
      empty_sinks toy-IsMl (λ f xs. refl) (λ f xs. refl) databases tt none_fails (refl, refl) refl
      trends_run health_run
