-- ===== src/Stream/Process/Metrics.antt =====
-- The rows of `batch_metrics` that `_write_postgres` of src/processing/stream_processor.py writes.
use aiops_distributed_log.Prelude.{
  ℕ, ◌+◌, ◌≡◌, refl, ap, ◌∙◌, Bool, true, false, List, [], ◌∷◌, ◌++◌, String, Option, none, some,
  arith, any, map, length, sum_by, sum_by-append, if◌then◌else◌, ◌==◌, string_eq, option_eq, nat_eq,
  pair_eq,
}
use aiops_distributed_log.Tables.Groups.{any-group_by, sum_groups, sum_groups-group_by}
use aiops_distributed_log.Tables.Rows.{BatchMetric}
use aiops_distributed_log.Stream.{Processed}
use aiops_distributed_log.Stream.Process.{Jdbc, write_postgres}
use aiops_distributed_log.Stream.Process.Stages.{agg_key, aggregate, is_undated, metric_row}

abbrev pub Key : Type 0
Key = String × (Option ℕ × Option String)

abbrev no_date : Key → Bool
no_date k = elim k.1.0 [ none ↦ true | some d ↦ false ]

undated-aggregate :
    (df : List Processed) → any (λ g. no_date g.0) (aggregate df) ≡ any is_undated df
unfolding aggregate
undated-aggregate df = any-group_by no_date agg_key df

-- One event whose time could not be read spoils the batch: none of its aggregates is written,
-- but what the failing write leaves behind.
pub write_postgres-undated :
    (j : Jdbc) (df : List Processed) (table : List BatchMetric)
    → any is_undated df ≡ true
    → write_postgres j df table ≡ table ++ j.partial
unfolding write_postgres
write_postgres-undated j df table h = ground (arith, undated-aggregate df)

pub length-ones : (xs : List Processed) → length xs ≡ sum_by (λ x. 1) xs
length-ones [] = refl
length-ones (x ∷ xs) = omega (arith, length-ones xs)

events-groups :
    (c : String) (gs : List (Key × List Processed))
    → sum_by (λ m. if m.component == c then m.total_events else 0) (map metric_row gs)
      ≡ sum_groups (λ k. k.0 == c) (λ r. 1) gs
events-groups c [] = refl
events-groups c ((k, rs) ∷ gs) = omega (
  arith,
  length-ones rs,
  ap (λ n. if k.0 == c then n else 0) (length-ones rs),
  events-groups c gs,
)

anomalies-groups :
    (c : String) (gs : List (Key × List Processed))
    → sum_by (λ m. if m.component == c then m.anomaly_count else 0) (map metric_row gs)
      ≡ sum_groups (λ k. k.0 == c) (λ (r : Processed). r.is_anomaly) gs
anomalies-groups c [] = refl
anomalies-groups c (g ∷ gs) = omega (arith, anomalies-groups c gs)

pub written :
    (j : Jdbc) (df : List Processed) (table : List BatchMetric)
    → any is_undated df ≡ false
    → j.fails ≡ false
    → write_postgres j df table ≡ table ++ map metric_row (aggregate df)
unfolding write_postgres
written j df table dated fine = ground (arith, undated-aggregate df)

-- When every event is dated and nothing else fails, the new rows account for every event and
-- every anomaly of the batch: for each component the sums over the table grow by the numbers of
-- its rows in the batch.
pub write_postgres_lem :
    (j : Jdbc) (df : List Processed) (table : List BatchMetric) (c : String)
    → any is_undated df ≡ false
    → j.fails ≡ false
    → let events = λ (m : BatchMetric). if m.component == c then m.total_events else 0 in
      let anomalies = λ (m : BatchMetric). if m.component == c then m.anomaly_count else 0 in
      let table' = write_postgres j df table in
      (sum_by events table'
        ≡ sum_by events table + sum_by (λ (r : Processed). if r.component == c then 1 else 0) df)
      × (sum_by anomalies table'
          ≡ sum_by anomalies table
            + sum_by (λ (r : Processed). if r.component == c then r.is_anomaly else 0) df)
unfolding aggregate
write_postgres_lem j df table c dated fine =
    let new = map metric_row (aggregate df) in
    let events = λ (m : BatchMetric). if m.component == c then m.total_events else 0 in
    let anomalies = λ (m : BatchMetric). if m.component == c then m.anomaly_count else 0 in
    rw (written j df table dated fine) (
      sum_by-append events table new
          ∙ ap (λ n. sum_by events table + n)
              (events-groups c (aggregate df)
                ∙ sum_groups-group_by agg_key (λ k. k.0 == c) (λ r. 1) df),
      sum_by-append anomalies table new
          ∙ ap (λ n. sum_by anomalies table + n)
              (anomalies-groups c (aggregate df)
                ∙ sum_groups-group_by agg_key (λ k. k.0 == c) (λ r. r.is_anomaly) df),
    )
