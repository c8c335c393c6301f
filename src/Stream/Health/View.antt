-- ===== src/Stream/Health/View.antt =====
-- `_update_component_health` of src/processing/stream_processor.py against its abstract view: a batch is
-- a bag of rows, and the table a function from components to rows.
use mathlib.Core.List.{Perm}
use mathlib.Core.Path.{subst}
use mathlib.Core.Quot
use mathlib.Mathlib.Data.Multiset.Defs.{Multiset, of_list}
use aiops_distributed_log.Prelude.{
  ℕ, zero, suc, ◌+◌, ◌≡◌, refl, sym, ap, ◌∙◌, false, Bool-cases, inl, inr, List, [], ◌∷◌, String,
  Option, none, some, arith, map, length, filter, any, contains, sum_by, ltb, ok, ◌==◌, ==_iff,
  string_eq, if◌then◌else◌,
}
use aiops_distributed_log.Floats.{Floats}
use aiops_distributed_log.Postgres.{Psycopg, IsPsycopg, apply_all}
use aiops_distributed_log.Tables.{group_by, rows_of, keys}
use aiops_distributed_log.Tables.Groups.{
  AreDistinct, rows_of-group_by, keys-group_by, distinct-group_by,
}
use aiops_distributed_log.Tables.Order.{aggregate-Perm, sum_by-Perm}
use aiops_distributed_log.Tables.Rows.{HealthRow}
use aiops_distributed_log.Stream.{Processed}
use aiops_distributed_log.Stream.Health.{
  greatest, latest, upsert, health_row, health_rows, error_rate, derive_status,
  update_component_health,
}
use aiops_distributed_log.Stream.Health.Batch.{outcome, applied}
use aiops_distributed_log.Stream.Health.Totals.{events_of, anomalies_of}

greatest_comm : (a b c : Option ℕ) → greatest a (greatest b c) ≡ greatest b (greatest a c)
greatest_comm none b c = refl
greatest_comm (some x) none c = refl
greatest_comm (some x) (some y) none = ap some (omega arith)
greatest_comm (some x) (some y) (some z) = ap some (omega arith)

-- The latest time of a component's events.
abbrev pub time_of : String → Processed → Option ℕ
time_of c r = if r.component == c then r.event_time else none

abbrev pub latest_of : String → List Processed → Option ℕ
latest_of c [] = none
latest_of c (r ∷ rs) = greatest (time_of c r) (latest_of c rs)

-- The events, the anomalies and the latest time of one component.
abbrev pub Totals : Type 0
Totals = ℕ × ℕ × Option ℕ

pub Totals-set : IsSet Totals
Totals-set = hlevel

abbrev pub totals_of : String → List Processed → Totals
totals_of c df = (events_of c df, anomalies_of c df, latest_of c df)

pub totals_of-Perm :
    (c : String) (df df' : List Processed) → Perm df df' → totals_of c df ≡ totals_of c df'
totals_of-Perm c df df' p =
    let times =
      aggregate-Perm (latest_of c) (λ r t. greatest (time_of c r) t) (λ r rs. refl)
        (λ r s t. greatest_comm (time_of c r) (time_of c s) t) (hlevel) p in
    λ i. (
      sum_by-Perm (λ (r : Processed). if r.component == c then 1 else 0) p i,
      sum_by-Perm (λ (r : Processed). if r.component == c then r.is_anomaly else 0) p i,
      times i,
    )

-- The totals of a bag, in which the rows have no order.
unfoldable pub totals : String → Multiset Processed → Totals
totals c = Quot.lift Totals-set (totals_of c) (totals_of-Perm c)

module _ (fl : Floats) where
  open fl use {F}

  -- The row of a component in the table.
  abbrev pub row_of : String → List (HealthRow F) → Option (HealthRow F)
  row_of c [] = none
  row_of c (r ∷ rs) = if r.component == c then some r else row_of c rs

  -- The row that totals are written as; a component without events is not written.
  abbrev pub row_from : String → Totals → Option (HealthRow F)
  row_from c (zero, n, t) = none
  row_from c (suc e, n, t) = some (record {
    component = c;
    total_events = suc e;
    total_anomalies = n;
    error_rate_pct = some (error_rate fl n (suc e));
    last_seen = t;
    status = derive_status fl (error_rate fl n (suc e));
  })

  -- A new row adds its totals to the old one, and its rate and status replace the old ones.
  abbrev pub recorded : Option (HealthRow F) → Option (HealthRow F) → Option (HealthRow F)
  recorded none old = old
  recorded (some new) none = some new
  recorded (some new) (some old) = some (record {
    component = old.component;
    total_events = old.total_events + new.total_events;
    total_anomalies = old.total_anomalies + new.total_anomalies;
    error_rate_pct = new.error_rate_pct;
    last_seen = greatest old.last_seen new.last_seen;
    status = new.status;
  })

  row_of-upsert :
      (c : String) (row : HealthRow F) (table : List (HealthRow F))
      → row_of c (upsert fl row table)
        ≡ recorded (if row.component == c then some row else none) (row_of c table)
  unfolding upsert
  row_of-upsert c row [] = ground arith
  row_of-upsert c row (old ∷ table) = ground (
    arith,
    row_of-upsert c row table,
    ==_iff old.component row.component,
    ==_iff old.component c,
    ==_iff row.component c,
  )

  row_of-absent :
      (c : String) (rows : List (HealthRow F))
      → contains (map (λ (r : HealthRow F). r.component) rows) c ≡ false
      → row_of c rows ≡ none
  row_of-absent c [] h = refl
  row_of-absent c (row ∷ rows) h =
      ground (arith, row_of-absent c rows, ==_iff row.component c, ==_iff c row.component)

  row_of-apply_all :
      (c : String) (rows table : List (HealthRow F))
      → AreDistinct (map (λ (r : HealthRow F). r.component) rows)
      → row_of c (apply_all (upsert fl) rows table) ≡ recorded (row_of c rows) (row_of c table)
  row_of-apply_all c [] table h = refl
  row_of-apply_all c (row ∷ rows) table (fresh, h) =
      let later = row_of-apply_all c rows (upsert fl row table) h in
      let first = row_of-upsert c row table in
      elim (Bool-cases (row.component == c)) [
        | inl same ↦
            let absent = row_of-absent row.component rows fresh in
            let at : row.component ≡ c = (==_iff row.component c).0 same in
            let absent' : row_of c rows ≡ none = subst (λ x. row_of x rows ≡ none) at absent in
            rw (later, first, same, absent') refl
        | inr other ↦ rw (later, first, other) refl
      ]

  row_of-health_row :
      (c : String) (gs : List (String × List Processed))
      → row_of c (map (health_row fl) gs)
        ≡ (if contains (keys gs) c then some (health_row fl (c, rows_of c gs)) else none)
  unfolding health_row
  row_of-health_row c [] = refl
  row_of-health_row c ((k, rs) ∷ gs) =
      ground (arith, row_of-health_row c gs, ==_iff k c, ==_iff c k)

  length-filter_of :
      (c : String) (df : List Processed)
      → length (filter (λ (r : Processed). r.component == c) df) ≡ events_of c df
  length-filter_of c [] = refl
  length-filter_of c (r ∷ df) = ground (arith, length-filter_of c df)

  anomalies-filter_of :
      (c : String) (df : List Processed)
      → sum_by (λ (r : Processed). r.is_anomaly) (filter (λ (r : Processed). r.component == c) df)
        ≡ anomalies_of c df
  anomalies-filter_of c [] = refl
  anomalies-filter_of c (r ∷ df) = ground (arith, anomalies-filter_of c df)

  latest-filter_of :
      (c : String) (df : List Processed)
      → latest (filter (λ (r : Processed). r.component == c) df) ≡ latest_of c df
  latest-filter_of c [] = refl
  latest-filter_of c (r ∷ df) = ground (arith, latest-filter_of c df)

  any-events_of :
      (c : String) (df : List Processed)
      → any (λ (r : Processed). c == r.component) df ≡ ltb 0 (events_of c df)
  any-events_of c [] = refl
  any-events_of c (r ∷ df) =
      ground (arith, any-events_of c df, ==_iff r.component c, ==_iff c r.component)

  health_row-row_from :
      (c : String) (rs : List Processed) (e n : ℕ) (t : Option ℕ)
      → length rs ≡ e
      → sum_by (λ (r : Processed). r.is_anomaly) rs ≡ n
      → latest rs ≡ t
      → (if ltb 0 e then some (health_row fl (c, rs)) else none) ≡ row_from c (e, n, t)
  unfolding health_row
  health_row-row_from c rs zero n t p q r = refl
  health_row-row_from c rs (suc e) n t p q r = rw (p, q, r) (ground arith)

  health_rows_lem :
      (df : List Processed)
      → health_rows fl df ≡ map (health_row fl) (group_by (λ (r : Processed). r.component) df)
  unfolding health_rows
  health_rows_lem df = refl

  row_of-health_rows :
      (c : String) (df : List Processed)
      → row_of c (health_rows fl df) ≡ row_from c (totals_of c df)
  row_of-health_rows c df =
      let key = λ (r : Processed). r.component in
      let gs = group_by key df in
      let rs = filter (λ (r : Processed). r.component == c) df in
      let made : row_of c (map (health_row fl) gs) ≡ row_from c (totals_of c df) =
        rw
          (
            row_of-health_row c gs,
            keys-group_by key c df,
            any-events_of c df,
            rows_of-group_by key c df,
          )
          (health_row-row_from c rs (events_of c df) (anomalies_of c df) (latest_of c df)
            (length-filter_of c df) (anomalies-filter_of c df) (latest-filter_of c df)) in
      rw (health_rows_lem df) made

  components-health_row :
      (gs : List (String × List Processed))
      → map (λ (r : HealthRow F). r.component) (map (health_row fl) gs) ≡ keys gs
  unfolding health_row
  components-health_row [] = refl
  components-health_row ((k, rs) ∷ gs) = ap (◌∷◌ k) (components-health_row gs)

  components-health_rows :
      (df : List Processed)
      → AreDistinct (map (λ (r : HealthRow F). r.component) (health_rows fl df))
  components-health_rows df =
      let key = λ (r : Processed). r.component in
      rw (health_rows_lem df, components-health_row (group_by key df)) (distinct-group_by key df)

module _ (fl : Floats) (p : Psycopg (List (HealthRow fl.F))) (is : IsPsycopg p) where
  -- Where its transaction goes through, a batch adds to the row of each component exactly the row of
  -- the totals of its events as a bag, in which the rows have no order; where a component has
  -- no event in the batch, its row stays, if it has one.
  pub update_component_health-totals :
      (df : List Processed) (table : List (HealthRow fl.F)) (c : String)
      → outcome fl p is df table ≡ ok tt
      → row_of fl c (update_component_health fl p df table)
        ≡ recorded fl (row_from fl c (totals c (of_list df))) (row_of fl c table)
  unfolding totals
  update_component_health-totals df table c h = rw (applied fl p is df table h) (
      row_of-apply_all fl c (health_rows fl df) table (components-health_rows fl df)
      ∙ ap (λ r. recorded fl r (row_of fl c table)) (row_of-health_rows fl c df))

  -- The order in which the rows of a batch come makes no difference to any component.
  pub update_component_health_order :
      (df df' : List Processed) (table : List (HealthRow fl.F)) (c : String)
      → Perm df df'
      → outcome fl p is df table ≡ ok tt
      → outcome fl p is df' table ≡ ok tt
      → row_of fl c (update_component_health fl p df table)
        ≡ row_of fl c (update_component_health fl p df' table)
  update_component_health_order df df' table c same h h' =
      update_component_health-totals df table c h
      ∙ ap (λ b. recorded fl (row_from fl c (totals c b)) (row_of fl c table)) (Quot.sound same)
      ∙ sym (update_component_health-totals df' table c h')
