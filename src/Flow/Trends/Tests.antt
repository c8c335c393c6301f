-- ===== src/Flow/Trends/Tests.antt =====
-- A batch that is written, and the trends after it.
use aiops_distributed_log.Prelude.{
  ℕ, Bool, ◌+◌, ◌≤◌, ◌≡◌, refl, true, List, [], ◌∷◌, none, ok, filter, map, sum_by, string_eq,
  nat_eq, if◌then◌else◌, ◌==◌, nat_eq, pair_eq, string_eq,
}
use aiops_distributed_log.Tables.{group_by}
use aiops_distributed_log.Stream.Process.{write_postgres}
use aiops_distributed_log.Stream.Tests.{
  toy, toy-IsMl, show_time, answers, empty_sinks, parsers, values,
}
use aiops_distributed_log.Floats.Fixed.{fixed}
use aiops_distributed_log.Stream.Enrich.{enrich}
use aiops_distributed_log.Stream.Train.{train_model}
use aiops_distributed_log.Stream.Process.{
  ensure_trained, score_batch, new_processor, process, write_all, mark_all,
}
use aiops_distributed_log.Stream.Process.Egress.{row_facts, event_facts}
use aiops_distributed_log.Stream.Job.{MicroBatch, main}
use aiops_distributed_log.Flow.Trends.Batch.{count_in}
use aiops_distributed_log.Flow.Trends.Job.{received_events, received, AreClean, job_trends}
use aiops_distributed_log.Api.Queries.{given, rows}
use aiops_distributed_log.Api.Queries.Summary.{
  MetricsSummary, selected, metric_key, summary_key, get_metrics_summary,
}
use aiops_distributed_log.Flow.Trends.{Trend, count_anomalies}

-- Of two batches the first has a value without a readable time.
abbrev batches : List (MicroBatch ℕ)
batches =
    record { answers = answers []; values = values }
    ∷ record { answers = answers []; values = "now" ∷ "then" ∷ [] }
    ∷ []

abbrev answered : List (MetricsSummary ℕ)
answered =
    record {
      component = "UNKNOWN";
      log_date = 1;
      total_events = 2;
      anomaly_count = 2;
      anomaly_rate_pct = 2;
    }
    ∷ []

job_run :
    let table = (main fixed toy show_time parsers batches empty_sinks).1.batch_metrics in
    get_metrics_summary (λ a t. a) (λ xs. xs) true 7 none (ok tt) table ≡ rows answered
unfolding main process write_all mark_all ensure_trained score_batch enrich train_model group_by
    write_postgres get_metrics_summary
job_run = refl

clean : AreClean fixed toy show_time parsers batches
unfolding AreClean
clean = (refl, (refl, tt))

job_trends_example :
    let w : Trend → Bool = λ k. true in
    let kept = filter (selected (given none)) [] in
    let events = received_events fixed toy show_time parsers 0 batches new_processor empty_sinks in
    let scored = received fixed toy show_time parsers 0 batches new_processor empty_sinks in
    (sum_by (λ x. if w (summary_key x) then x.total_events else 0) answered
      ≡ sum_by (λ r. if w (metric_key r) then r.total_events else 0) kept
        + count_in (given none) w events)
    × (sum_by (λ x. if w (summary_key x) then x.anomaly_count else 0) answered
        ≡ sum_by (λ r. if w (metric_key r) then r.anomaly_count else 0) kept
          + count_anomalies (given none) w scored)
    × (map row_facts scored ≡ map event_facts events)
    × (sum_by (λ x. if summary_key x == ("UNKNOWN", 1) then 1 else 0) answered ≤ 1)
job_trends_example =
    job_trends fixed toy show_time parsers (λ a t. a) (λ xs. xs) 7 none (λ k. true) ("UNKNOWN", 1)
      batches empty_sinks toy-IsMl (λ f xs. refl) clean job_run
