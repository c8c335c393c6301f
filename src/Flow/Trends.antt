-- ===== src/Flow/Trends.antt =====
-- From `_write_postgres` of src/processing/stream_processor.py to `get_metrics_summary` of
-- src/api/main.py: both know the table `batch_metrics`.
pub mod Batch
pub mod Job
mod Tests
use aiops_distributed_log.Prelude.{
  ℕ, ◌+◌, ◌≡◌, refl, ap, ◌∙◌, Bool, true, false, ◌&&◌, List, [], ◌∷◌, ◌++◌, String, Option, none,
  some, ok, arith, any, map, filter, length, sum_by, sum_by-append, if◌then◌else◌, ◌==◌, string_eq,
  option_eq, nat_eq, pair_eq,
}
use aiops_distributed_log.Tables.Groups.{sum_groups, sum_groups-group_by}
use aiops_distributed_log.Tables.Rows.{BatchMetric}
use aiops_distributed_log.Stream.{Processed}
use aiops_distributed_log.Stream.Process.{Jdbc, write_postgres}
use aiops_distributed_log.Stream.Process.Metrics.{Key, written, length-ones}
use aiops_distributed_log.Stream.Process.Stages.{
  agg_key, aggregate, is_undated, metric_row, date_of,
}
use aiops_distributed_log.Api.Queries.{rows, given}
use aiops_distributed_log.Api.Queries.Summary.{
  MetricsSummary, IsSort, selected, metric_key, summary_key, get_metrics_summary,
  metrics_summary_conserves,
}

-- A component and a day, as the endpoint groups by them.
abbrev pub Trend : Type 0
Trend = String × ℕ

-- `WHERE component = $1`, on an event of the batch
abbrev pub asked : Option String → Processed → Bool
asked none r = true
asked (some c) r = r.component == c

abbrev pub trend_of : Processed → Trend
trend_of r = (r.component, date_of r.log_date)

-- A sum over the events of a batch that count towards the trends that pass a test.
abbrev pub sum_rows : Option String → (Trend → Bool) → (Processed → ℕ) → List Processed → ℕ
sum_rows c w g = sum_by (λ r. if asked c r && w (trend_of r) then g r else 0)

abbrev pub count_anomalies : Option String → (Trend → Bool) → List Processed → ℕ
count_anomalies c w = sum_rows c w (λ r. r.is_anomaly)

-- The same test on the key of a group.
abbrev counts : Option String → (Trend → Bool) → Key → Bool
counts none w k = w (k.0, date_of k.1.0)
counts (some c) w k = (k.0 == c) && w (k.0, date_of k.1.0)

counts-metric_row :
    (c : Option String) (w : Trend → Bool) (k : Key) (rs : List Processed)
    → (selected c (metric_row (k, rs)) && w (metric_key (metric_row (k, rs)))) ≡ counts c w k
counts-metric_row none w k rs = refl
counts-metric_row (some d) w k rs = refl

counts-agg_key :
    (c : Option String) (w : Trend → Bool) (r : Processed)
    → counts c w (agg_key r) ≡ (asked c r && w (trend_of r))
counts-agg_key none w r = refl
counts-agg_key (some d) w r = refl

module _ (c : Option String) (w : Trend → Bool) where
  -- A sum over the stored rows that are selected and pass the test.
  abbrev pub stored : (BatchMetric → ℕ) → List BatchMetric → ℕ
  stored f table = sum_by (λ r. if w (metric_key r) then f r else 0) (filter (selected c) table)

  stored-∷ :
      (f : BatchMetric → ℕ) (x : BatchMetric) (xs : List BatchMetric)
      → stored f (x ∷ xs) ≡ (if selected c x && w (metric_key x) then f x else 0) + stored f xs
  stored-∷ f x xs = ground arith

  stored-append :
      (f : BatchMetric → ℕ) (xs ys : List BatchMetric)
      → stored f (xs ++ ys) ≡ stored f xs + stored f ys
  stored-append f [] ys = omega arith
  stored-append f (x ∷ xs) ys =
      omega (arith, stored-append f xs ys, stored-∷ f x (xs ++ ys), stored-∷ f x xs)

  stored-groups :
      (f : BatchMetric → ℕ) (g : Processed → ℕ) (gs : List (Key × List Processed))
      → ((k : Key) (rs : List Processed) → f (metric_row (k, rs)) ≡ sum_by g rs)
      → stored f (map metric_row gs) ≡ sum_groups (counts c w) g gs
  stored-groups f g [] h = refl
  stored-groups f g ((k, rs) ∷ gs) h =
      let rest = stored f (map metric_row gs) in
      stored-∷ f (metric_row (k, rs)) (map metric_row gs)
      ∙ rw (counts-metric_row c w k rs, h k rs, stored-groups f g gs h) refl

  -- The rows that a batch adds, summed, are its events, summed.
  pub stored-written :
      (f : BatchMetric → ℕ) (g : Processed → ℕ) (j : Jdbc) (df : List Processed)
      (table : List BatchMetric)
      → ((k : Key) (rs : List Processed) → f (metric_row (k, rs)) ≡ sum_by g rs)
      → any is_undated df ≡ false
      → j.fails ≡ false
      → stored f (write_postgres j df table) ≡ stored f table + sum_rows c w g df
  unfolding aggregate
  stored-written f g j df table h dated fine = rw (written j df table dated fine) (
      stored-append f table (map metric_row (aggregate df))
      ∙ ap (λ n. stored f table + n)
          (stored-groups f g (aggregate df) h
            ∙ sum_groups-group_by agg_key (counts c w) g df
            ∙ (λ ī. sum_by (λ r. if counts-agg_key c w r ī then g r else 0) df)))
