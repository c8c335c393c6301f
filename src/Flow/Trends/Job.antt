-- ===== src/Flow/Trends/Job.antt =====
-- From the Kafka values that `main` of src/processing/stream_processor.py reads to
-- `get_metrics_summary` of src/api/main.py.
use aiops_distributed_log.Prelude.{
  ℕ, ◌+◌, ◌≤◌, filter, map, ◌≡◌, refl, sym, ap, ◌∙◌, ◌&&◌, Bool, true, List, [], ◌∷◌, ◌++◌, String,
  Option, ok, arith, sum_by, if◌then◌else◌, ◌==◌, nat_eq, pair_eq, string_eq, sum_by-append,
  map-append,
}
use aiops_distributed_log.Floats.{Floats}
use aiops_distributed_log.Tables.Rows.{BatchMetric}
use aiops_distributed_log.Stream.{Event, Processed}
use aiops_distributed_log.Stream.Enrich.{Parsers, enrich}
use aiops_distributed_log.Stream.Train.{Ml, IsMl}
use aiops_distributed_log.Stream.Process.{Sinks, Processor, new_processor, process}
use aiops_distributed_log.Stream.Process.Egress.{event_facts, row_facts}
use aiops_distributed_log.Stream.Process.Metrics.{length-ones}
use aiops_distributed_log.Stream.Job.{MicroBatch, run_query, main}
use aiops_distributed_log.Api.Queries.{rows, given}
use aiops_distributed_log.Api.Queries.Summary.{
  MetricsSummary, IsSort, selected, metric_key, summary_key, get_metrics_summary,
  metrics_summary_conserves,
}
use aiops_distributed_log.Flow.Trends.Batch.{
  count_in, is_received, received_rows, stored-process, facts-received_rows, IsSum,
  sum_rows-count_in,
}
use aiops_distributed_log.Flow.Trends.{Trend, asked, trend_of, count_anomalies, sum_rows, stored}

module _ (fl : Floats) (ml : Ml) (show_time : ℕ → String) (ps : Parsers) where
  open fl use {F}
  open ml use {Nlp, Km}

  -- The events of the batches that `batch_metrics` receives, in order.
  abbrev pub received_events : ℕ → List (MicroBatch F) → Processor Nlp Km → Sinks F → List Event
  received_events batch_id [] self s = []
  received_events batch_id (b ∷ bs) self s =
      let events = enrich ps b.values in
      let (self', s') = process fl ml show_time b.answers batch_id events self s in
      let later = received_events (batch_id + 1) bs self' s' in
      (if is_received fl ml show_time b.answers events self then events else []) ++ later

  -- The rows that it receives of them.
  abbrev pub received : ℕ → List (MicroBatch F) → Processor Nlp Km → Sinks F → List Processed
  received batch_id [] self s = []
  received batch_id (b ∷ bs) self s =
      let events = enrich ps b.values in
      let (self', s') = process fl ml show_time b.answers batch_id events self s in
      received_rows fl ml show_time b.answers events self ++ received (batch_id + 1) bs self' s'

  -- A write to `batch_metrics` that fails leaves nothing behind.
  unfoldable pub AreClean : List (MicroBatch F) → Type 0
  AreClean [] = Unit {0}
  AreClean (b ∷ bs) = (b.answers.jdbc.partial ≡ []) × AreClean bs

  stored-query :
      (c : Option String) (w : Trend → Bool) (f : BatchMetric → ℕ) (g : Processed → ℕ)
      (batch_id : ℕ) (bs : List (MicroBatch F)) (self : Processor Nlp Km) (s : Sinks F)
      → IsSum f g
      → AreClean bs
      → stored c w f (run_query fl ml show_time ps batch_id bs self s).1.batch_metrics
        ≡ stored c w f s.batch_metrics + sum_rows c w g (received batch_id bs self s)
  unfolding run_query AreClean
  stored-query c w f g batch_id [] self s sums clean = omega arith
  stored-query c w f g batch_id (b ∷ bs) self s sums clean =
      let events = enrich ps b.values in
      let out = process fl ml show_time b.answers batch_id events self s in
      omega (
        arith,
        stored-query c w f g (batch_id + 1) bs out.0 out.1 sums clean.1,
        stored-process fl ml show_time c w f g b.answers batch_id events self s sums clean.0,
        sum_by-append (λ (r : Processed). if asked c r && w (trend_of r) then g r else 0)
            (received_rows fl ml show_time b.answers events self)
            (received (batch_id + 1) bs out.0 out.1),
      )

  facts-received :
      (is : IsMl ml) (batch_id : ℕ) (bs : List (MicroBatch F)) (self : Processor Nlp Km)
      (s : Sinks F)
      → map row_facts (received batch_id bs self s)
        ≡ map event_facts (received_events batch_id bs self s)
  facts-received is batch_id [] self s = refl
  facts-received is batch_id (b ∷ bs) self s =
      let events = enrich ps b.values in
      let out = process fl ml show_time b.answers batch_id events self s in
      let now = if is_received fl ml show_time b.answers events self then events else [] in
      map-append row_facts (received_rows fl ml show_time b.answers events self)
        (received (batch_id + 1) bs out.0 out.1)
      ∙ rw
          (
            facts-received_rows fl ml show_time is b.answers events self,
            facts-received is (batch_id + 1) bs out.0 out.1,
          )
          (sym (map-append event_facts now (received_events (batch_id + 1) bs out.0 out.1)))

  -- What the trends endpoint answers after any run of the job, with any failures, as long as a
  -- failing write to `batch_metrics` leaves nothing behind, the models keep the rows of a frame and
  -- the sort only reorders. Over the summaries whose component and day pass a test, the events are
  -- those of the rows stored before and those of the batches that were received, of the component
  -- asked for, that pass it; the anomalies are those stored before and those that the models found
  -- in the received rows, which have the facts of the received events. No component has two
  -- summaries of a day, and the number of days that was asked for has no influence.
  pub job_trends :
      {G : Type 0} (percent : ℕ → ℕ → G) (sort : List (MetricsSummary G) → List (MetricsSummary G))
      (days : ℕ) (c : Option String) (w : Trend → Bool) (k : Trend) (bs : List (MicroBatch F))
      (s : Sinks F) {answer : List (MetricsSummary G)}
      → IsMl ml
      → IsSort sort
      → AreClean bs
      → (let table' = (main fl ml show_time ps bs s).1.batch_metrics in
          get_metrics_summary percent sort true days c (ok tt) table' ≡ rows answer)
      → let kept = filter (selected (given c)) s.batch_metrics in
        let events = received_events 0 bs new_processor s in
        let scored = received 0 bs new_processor s in
        (sum_by (λ x. if w (summary_key x) then x.total_events else 0) answer
          ≡ sum_by (λ r. if w (metric_key r) then r.total_events else 0) kept
            + count_in (given c) w events)
        × (sum_by (λ x. if w (summary_key x) then x.anomaly_count else 0) answer
            ≡ sum_by (λ r. if w (metric_key r) then r.anomaly_count else 0) kept
              + count_anomalies (given c) w scored)
        × (map row_facts scored ≡ map event_facts events)
        × (sum_by (λ x. if summary_key x == k then 1 else 0) answer ≤ 1)
  unfolding main
  job_trends percent sort days c w k bs s is is_sort clean h =
      let table' = (main fl ml show_time ps bs s).1.batch_metrics in
      let found = metrics_summary_conserves percent sort days c table' w k is_sort h in
      let events = received_events 0 bs new_processor s in
      let scored = received 0 bs new_processor s in
      let same = facts-received is 0 bs new_processor s in
      let before = stored (given c) w (λ r. r.total_events) s.batch_metrics in
      (
        found.0
            ∙ stored-query (given c) w (λ r. r.total_events) (λ r. 1) 0 bs new_processor s
                (λ _ rs. length-ones rs) clean
            ∙ ap (λ n. before + n) (sum_rows-count_in (given c) w scored events same),
        found.1
            ∙ stored-query (given c) w (λ r. r.anomaly_count) (λ r. r.is_anomaly) 0 bs new_processor
                s (λ _ rs. refl) clean,
        same,
        found.2,
      )
