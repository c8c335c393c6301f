-- ===== src/Flow/Agreement.antt =====
-- The two sums that the dashboard shows of a component: of the trends and of the table of health,
-- both from src/processing/stream_processor.py over PostgreSQL to src/api/main.py.
mod Tests
use mathlib.Core.Path.{subst}
use aiops_distributed_log.Prelude.{
  ℕ, ◌+◌, ◌≡◌, refl, sym, ap, ◌∙◌, Bool, true, false, ◌&&◌, List, [], ◌∷◌, ◌++◌, String, Option,
  none, some, ok, err, arith, filter, map, sum_by, if◌then◌else◌, ◌==◌, string_eq,
}
use aiops_distributed_log.Floats.{Floats}
use aiops_distributed_log.Tables.Rows.{BatchMetric, HealthRow}
use aiops_distributed_log.Stream.{Event, Processed}
use aiops_distributed_log.Stream.Enrich.{Parsers, enrich}
use aiops_distributed_log.Stream.Train.{Ml, IsMl}
use aiops_distributed_log.Stream.Transactions.{transaction}
use aiops_distributed_log.Stream.Health.{upsert, health_rows}
use aiops_distributed_log.Stream.Health.Totals.{at, HasKeys, events_of, anomalies_of}
use aiops_distributed_log.Stream.Process.{Sinks, Processor, Jdbc, new_processor, process}
use aiops_distributed_log.Stream.Job.{MicroBatch, main}
use aiops_distributed_log.Api.Queries.{rows, given}
use aiops_distributed_log.Api.Queries.Summary.{
  MetricsSummary, IsSort, selected, get_metrics_summary, get_component_health,
}
use aiops_distributed_log.Flow.Trends.{Trend, count_anomalies, sum_rows}
use aiops_distributed_log.Flow.Trends.Batch.{
  count_in, has_undated, scored_rows, received_rows, received_rows-scored_rows, sum_rows-count_in,
}
use aiops_distributed_log.Flow.Trends.Job.{received, received_events, AreClean, job_trends}
use aiops_distributed_log.Flow.Health.{recorded_rows, recorded_events, AreDatabases, job_health}

abbrev pub good_write : Jdbc
good_write = record { fails = false; partial = [] }

-- The two tables have the same events and the same anomalies of a component.
abbrev pub DoAgree : (fl : Floats) → String → Sinks fl.F → Type 0
DoAgree fl c s =
    let kept = filter (selected (some c)) s.batch_metrics in
    (sum_by (λ r. r.total_events) kept ≡ at fl (λ r. r.total_events) c s.component_health)
    × (sum_by (λ r. r.anomaly_count) kept ≡ at fl (λ r. r.total_anomalies) c s.component_health)

sum_rows-all :
    (c : String) (g : Processed → ℕ) (df : List Processed)
    → sum_rows (some c) (λ k. true) g df ≡ sum_by (λ r. if r.component == c then g r else 0) df
sum_rows-all c g [] = refl
sum_rows-all c g (r ∷ df) = ground (arith, sum_rows-all c g df)

given_lem : (c : String) → (c == "") ≡ false → given (some c) ≡ some c
given_lem c h = rw h refl

module _ (fl : Floats) (ml : Ml) (show_time : ℕ → String) (ps : Parsers) where
  open fl use {F}
  open ml use {Nlp, Km}

  -- Every event is dated, and neither write of a batch fails.
  unfoldable pub NoneFails : ℕ → List (MicroBatch F) → Processor Nlp Km → Sinks F → Type 0
  NoneFails batch_id [] self s = Unit {0}
  NoneFails batch_id (b ∷ bs) self s =
      let events = enrich ps b.values in
      let a = b.answers in
      let df = scored_rows fl ml show_time a events self in
      let out = process fl ml show_time a batch_id events self s in
      (a.jdbc ≡ good_write)
      × (has_undated events ≡ false)
      × ((transaction a.health_db (upsert fl) (health_rows fl df) s.component_health).0 ≡ ok tt)
      × NoneFails (batch_id + 1) bs out.0 out.1

  NoneFails-AreClean :
      (batch_id : ℕ) (bs : List (MicroBatch F)) (self : Processor Nlp Km) (s : Sinks F)
      → NoneFails batch_id bs self s
      → AreClean fl ml show_time ps bs
  unfolding NoneFails AreClean
  NoneFails-AreClean batch_id [] self s well = tt
  NoneFails-AreClean batch_id (b ∷ bs) self s well =
      let events = enrich ps b.values in
      let out = process fl ml show_time b.answers batch_id events self s in
      (ap (λ (j : Jdbc). j.partial) well.0, NoneFails-AreClean (batch_id + 1) bs out.0 out.1 well.3)

  -- The two writers of a batch then have the same rows.
  received-recorded :
      (is : IsMl ml) (batch_id : ℕ) (bs : List (MicroBatch F)) (self : Processor Nlp Km)
      (s : Sinks F)
      → NoneFails batch_id bs self s
      → received fl ml show_time ps batch_id bs self s
        ≡ recorded_events fl ml show_time ps batch_id bs self s
  unfolding NoneFails
  received-recorded is batch_id [] self s well = refl
  received-recorded is batch_id (b ∷ bs) self s well =
      let events = enrich ps b.values in
      let out = process fl ml show_time b.answers batch_id events self s in
      rw
        (
          recorded_rows,
          well.2,
          received_rows-scored_rows fl ml show_time is b.answers events self
              (ap (λ (j : Jdbc). j.fails) well.0) well.1,
          received-recorded is (batch_id + 1) bs out.0 out.1 well.3,
        )
        refl

  -- The two endpoints agree: after any run of the job in which every event is dated and neither of
  -- the two writes of a batch fails, over models that keep the rows of a frame, on PostgreSQL and
  -- with sorts that only reorder, the trends of a component, over all days, and its row of health
  -- have the same number of events and the same number of anomalies, if the two tables had at
  -- the start of the run.
  pub endpoints_agree :
      {G : Type 0} (percent : ℕ → ℕ → G) (sort : List (MetricsSummary G) → List (MetricsSummary G))
      (sort' : List (HealthRow F) → List (HealthRow F)) (days : ℕ) (c : String)
      (bs : List (MicroBatch F)) (s : Sinks F) {summaries : List (MetricsSummary G)}
      {health : List (HealthRow F)}
      → IsMl ml
      → IsSort sort
      → IsSort sort'
      → AreDatabases fl ml show_time ps bs
      → HasKeys fl s.component_health
      → NoneFails 0 bs new_processor s
      → DoAgree fl c s
      → (c == "") ≡ false
      → get_metrics_summary percent sort true days
          (some c)
          (ok tt)
          (main fl ml show_time ps bs s).1.batch_metrics
        ≡ rows summaries
      → get_component_health sort' true (ok tt) (main fl ml show_time ps bs s).1.component_health
        ≡ rows health
      → (sum_by (λ x. x.total_events) summaries ≡ at fl (λ r. r.total_events) c health)
        × (sum_by (λ x. x.anomaly_count) summaries ≡ at fl (λ r. r.total_anomalies) c health)
  endpoints_agree percent sort sort' days c bs s is is_sort is_sort' dbs keys well agree h trends
        healths =
      let w : Trend → Bool = λ k. true in
      let new = received fl ml show_time ps 0 bs new_processor s in
      let events = received_events fl ml show_time ps 0 bs new_processor s in
      let clean = NoneFails-AreClean 0 bs new_processor s well in
      let one =
        job_trends fl ml show_time ps percent sort days (some c) w (c, 0) bs s is is_sort clean
          trends in
      let two = job_health fl ml show_time ps sort' bs s c is_sort' dbs keys healths in
      let same = received-recorded is 0 bs new_processor s well in
      let asked' = given_lem c h in
      let counted = sum_rows-count_in (some c) w new events one.2 in
      let kept = λ (f : BatchMetric → ℕ) (o : Option String).
        sum_by f (filter (selected o) s.batch_metrics) in
      (
        omega (
          arith,
          one.0,
          ap (kept (λ r. r.total_events)) asked',
          ap (λ o. count_in o w events) asked',
          counted,
          sum_rows-all c (λ r. 1) new,
          ap (events_of c) same,
          two.0,
          agree.0,
        ),
        omega (
          arith,
          one.1,
          ap (kept (λ r. r.anomaly_count)) asked',
          ap (λ o. count_anomalies o w new) asked',
          sum_rows-all c (λ r. r.is_anomaly) new,
          ap (anomalies_of c) same,
          two.1,
          agree.1,
        ),
      )
