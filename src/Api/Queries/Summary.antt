-- ===== src/Api/Queries/Summary.antt =====
-- src/api/main.py, `get_metrics_summary`, `get_component_health` and `get_alert_summary`.
use aiops_distributed_log.Prelude.{
  ℕ, ◌≤◌, ◌≡◌, refl, Bool, true, List, [], ◌∷◌, String, Option, none, some, Result, ok, err, arith,
  map, filter, sum_by, ltb, ◌==◌, string_eq, nat_eq, pair_eq, if◌then◌else◌, contains, ◌∙◌,
}
use aiops_distributed_log.Tables.{group_by, keys}
use aiops_distributed_log.Tables.Groups.{
  sum_groups, sum_groups-group_by, one_group, distinct-group_by,
}
use aiops_distributed_log.Tables.Rows.{BatchMetric, HealthRow, AlertSummary}
use aiops_distributed_log.Api.Queries.{Response, rows, in_range, respond, given}

pub record MetricsSummary (F : Type 0) : Type 0 where
  pub component : String
  pub log_date : ℕ
  pub total_events : ℕ
  pub anomaly_count : ℕ
  pub anomaly_rate_pct : F

abbrev pub Key : Type 0
Key = String × ℕ

-- `GROUP BY component, log_date`
abbrev pub metric_key : BatchMetric → Key
metric_key r = (r.component, r.log_date)

abbrev pub summary_key : {F : Type 0} → MetricsSummary F → Key
summary_key s = (s.component, s.log_date)

-- `WHERE component = $1`, if there is a component
abbrev pub selected : Option String → BatchMetric → Bool
selected none r = true
selected (some c) r = r.component == c

-- A sort permutes the rows: no sum over them changes.
abbrev pub IsSort : {A : Type 0} → (List A → List A) → Type 0
IsSort {A} sort = (f : A → ℕ) (xs : List A) → sum_by f (sort xs) ≡ sum_by f xs

-- `percent a t` is `ROUND(a::numeric / t * 100, 2)` as a float.
module _ {F : Type 0} (percent : ℕ → ℕ → F) where
  abbrev pub summarise : Key × List BatchMetric → MetricsSummary F
  summarise ((c, d), rs) =
      let total = sum_by (λ r. r.total_events) rs in
      let anomalies = sum_by (λ r. r.anomaly_count) rs in
      record {
        component = c;
        log_date = d;
        total_events = total;
        anomaly_count = anomalies;
        anomaly_rate_pct = if ltb 0 total then percent anomalies total else percent 0 1;
      }

  unfoldable pub summary_rows : Option String → List BatchMetric → List (MetricsSummary F)
  summary_rows component' table =
      map summarise (group_by metric_key (filter (selected component') table))

  -- `result` is whether the statement goes through.
  unfoldable pub get_metrics_summary :
      (List (MetricsSummary F) → List (MetricsSummary F))
      → Bool
      → ℕ
      → Option String
      → Result (Unit {0})
      → List BatchMetric
      → Response (List (MetricsSummary F))
  unfolding summary_rows
  get_metrics_summary sort has_pool days component' (ok _) table =
      respond (in_range 1 90 days) has_pool (ok (sort (summary_rows (given component') table)))
  get_metrics_summary sort has_pool days component' (err e) table =
      respond (in_range 1 90 days) has_pool (err e)

  sum_by-filter :
      (p : BatchMetric → Bool) (f : BatchMetric → ℕ) (xs : List BatchMetric)
      → sum_by f (filter p xs) ≡ sum_by (λ r. if p r then f r else 0) xs
  sum_by-filter p f [] = refl
  sum_by-filter p f (x ∷ xs) = ground (arith, sum_by-filter p f xs)

  map-events :
      (w : Key → Bool) (gs : List (Key × List BatchMetric))
      → sum_by (λ s. if w (summary_key s) then s.total_events else 0) (map summarise gs)
        ≡ sum_groups w (λ r. r.total_events) gs
  map-events w [] = refl
  map-events w (g ∷ gs) = omega (arith, map-events w gs)

  map-anomalies :
      (w : Key → Bool) (gs : List (Key × List BatchMetric))
      → sum_by (λ s. if w (summary_key s) then s.anomaly_count else 0) (map summarise gs)
        ≡ sum_groups w (λ r. r.anomaly_count) gs
  map-anomalies w [] = refl
  map-anomalies w (g ∷ gs) = omega (arith, map-anomalies w gs)

  map-keys :
      (k : Key) (gs : List (Key × List BatchMetric))
      → sum_by (λ s. if summary_key s == k then 1 else 0) (map summarise gs)
        ≡ sum_by (λ g. if g.0 == k then 1 else 0) gs
  map-keys k [] = refl
  map-keys k (g ∷ gs) = omega (arith, map-keys k gs)

  answered :
      (sort : List (MetricsSummary F) → List (MetricsSummary F)) (days : ℕ) (c : Option String)
      (table : List BatchMetric) {answer : List (MetricsSummary F)}
      → get_metrics_summary sort true days c (ok tt) table ≡ rows answer
      → answer ≡ sort (summary_rows (given c) table)
  unfolding get_metrics_summary
  answered sort days c table h = ground arith

  at_most_one : {n : ℕ} (b : Bool) → n ≡ (if b then 1 else 0) → n ≤ 1
  at_most_one b h = ground arith

  -- What the endpoint answers when it answers: over the summaries whose key passes a test, the
  -- events and the anomalies add up to those of the stored rows of the component asked for
  -- whose key passes it, and no key comes twice. So nothing is lost or counted twice, for each
  -- key and in total, and the number of days that was asked for has no influence.
  pub metrics_summary_conserves :
      (sort : List (MetricsSummary F) → List (MetricsSummary F)) (days : ℕ) (c : Option String)
      (table : List BatchMetric) (w : Key → Bool) (k : Key) {answer : List (MetricsSummary F)}
      → IsSort sort
      → get_metrics_summary sort true days c (ok tt) table ≡ rows answer
      → let kept = filter (selected (given c)) table in
        (sum_by (λ s. if w (summary_key s) then s.total_events else 0) answer
          ≡ sum_by (λ r. if w (metric_key r) then r.total_events else 0) kept)
        × (sum_by (λ s. if w (summary_key s) then s.anomaly_count else 0) answer
            ≡ sum_by (λ r. if w (metric_key r) then r.anomaly_count else 0) kept)
        × (sum_by (λ s. if summary_key s == k then 1 else 0) answer ≤ 1)
  unfolding get_metrics_summary
  metrics_summary_conserves sort days c table w k is_sort h =
      let kept = filter (selected (given c)) table in
      let groups = group_by metric_key kept in
      let found = answered sort days c table h in
      (
        rw (found, is_sort)
            (map-events w groups ∙ sum_groups-group_by metric_key w (λ r. r.total_events) kept),
        rw (found, is_sort)
            (map-anomalies w groups ∙ sum_groups-group_by metric_key w (λ r. r.anomaly_count) kept),
        rw (found, is_sort)
            (at_most_one (contains (keys groups) k)
              (map-keys k groups ∙ one_group k groups (distinct-group_by metric_key kept))),
      )

-- `SELECT … FROM component_health ORDER BY total_anomalies DESC`
unfoldable pub get_component_health :
    {F : Type 0}
    → (List (HealthRow F) → List (HealthRow F))
    → Bool
    → Result (Unit {0})
    → List (HealthRow F)
    → Response (List (HealthRow F))
get_component_health sort has_pool (ok _) table = respond true has_pool (ok (sort table))
get_component_health sort has_pool (err e) table = respond true has_pool (err e)

-- `SELECT … FROM alert_summary ORDER BY summary_date DESC, alert_count DESC`
unfoldable pub get_alert_summary :
    {F : Type 0}
    → (List (AlertSummary F) → List (AlertSummary F))
    → Bool
    → ℕ
    → Result (Unit {0})
    → List (AlertSummary F)
    → Response (List (AlertSummary F))
get_alert_summary sort has_pool days (ok _) table =
    respond (in_range 1 90 days) has_pool (ok (sort table))
get_alert_summary sort has_pool days (err e) table = respond (in_range 1 90 days) has_pool (err e)
