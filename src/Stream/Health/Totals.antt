-- ===== src/Stream/Health/Totals.antt =====
-- The table `component_health` under `_update_component_health` of
-- src/processing/stream_processor.py: what its rows add up to.
use aiops_distributed_log.Prelude.{
  ℕ, ◌+◌, ◌≡◌, refl, ◌||◌, List, [], ◌∷◌, String, arith, map, length, sum_by, contains, ◌==◌,
  ==_iff, string_eq, if◌then◌else◌,
}
use aiops_distributed_log.Floats.{Floats}
use aiops_distributed_log.Tables.Groups.{AreDistinct, sum_groups}
use aiops_distributed_log.Tables.Rows.{HealthRow}
use aiops_distributed_log.Stream.{Processed}
use aiops_distributed_log.Postgres.{apply_all}
use aiops_distributed_log.Stream.Health.{merge, upsert, health_row}

-- The events and the anomalies of one component in a batch.
abbrev pub events_of : String → List Processed → ℕ
events_of c = sum_by (λ r. if r.component == c then 1 else 0)

abbrev pub anomalies_of : String → List Processed → ℕ
anomalies_of c = sum_by (λ r. if r.component == c then r.is_anomaly else 0)

module _ (fl : Floats) where
  open fl use {F}

  -- A number of the rows of one component, added up.
  abbrev pub at : (HealthRow F → ℕ) → String → List (HealthRow F) → ℕ
  at f c = sum_by (λ r. if r.component == c then f r else 0)

  module _ (f : HealthRow F → ℕ)
      (adds : (old new : HealthRow F) → f (merge fl old new) ≡ f old + f new) where
    at-upsert :
        (c : String) (row : HealthRow F) (table : List (HealthRow F))
        → at f c (upsert fl row table) ≡ at f c table + at f c (row ∷ [])
    unfolding upsert
    at-upsert c row [] = omega arith
    at-upsert c row (old ∷ table) = ground (
      arith,
      at-upsert c row table,
      adds old row,
      ==_iff old.component row.component,
      ==_iff old.component c,
      ==_iff row.component c,
    )

    pub at-apply_all :
        (c : String) (rows table : List (HealthRow F))
        → at f c (apply_all (upsert fl) rows table) ≡ at f c table + at f c rows
    at-apply_all c [] table = omega arith
    at-apply_all c (row ∷ rows) table =
        omega (arith, at-apply_all c rows (upsert fl row table), at-upsert c row table)

  components : List (HealthRow F) → List String
  components = map (λ r. r.component)

  contains-upsert :
      (c : String) (row : HealthRow F) (table : List (HealthRow F))
      → contains (components (upsert fl row table)) c
        ≡ (c == row.component || contains (components table) c)
  unfolding upsert components
  contains-upsert c row [] = refl
  contains-upsert c row (old ∷ table) = ground (
    arith,
    contains-upsert c row table,
    ==_iff old.component row.component,
    ==_iff c old.component,
    ==_iff c row.component,
  )

  -- The primary key: no component has two rows.
  abbrev pub HasKeys : List (HealthRow F) → Type 0
  HasKeys table = AreDistinct (map (λ (r : HealthRow F). r.component) table)

  upsert-HasKeys :
      (row : HealthRow F) (table : List (HealthRow F))
      → HasKeys table
      → HasKeys (upsert fl row table)
  unfolding upsert components
  upsert-HasKeys row [] h = ground arith
  upsert-HasKeys row (old ∷ table) h = ground (
    arith,
    upsert-HasKeys row table,
    contains-upsert old.component row table,
    ==_iff old.component row.component,
  )

  pub apply_all-HasKeys :
      (rows table : List (HealthRow F)) → HasKeys table → HasKeys (apply_all (upsert fl) rows table)
  apply_all-HasKeys [] table h = h
  apply_all-HasKeys (row ∷ rows) table h =
      apply_all-HasKeys rows (upsert fl row table) (upsert-HasKeys row table h)

  length-ones : {A : Type 0} (xs : List A) → length xs ≡ sum_by (λ x. 1) xs
  length-ones [] = refl
  length-ones (x ∷ xs) = omega (arith, length-ones xs)

  pub events-health_rows :
      (c : String) (gs : List (String × List Processed))
      → at (λ r. r.total_events) c (map (health_row fl) gs) ≡ sum_groups (λ k. k == c) (λ r. 1) gs
  unfolding health_row
  events-health_rows c [] = refl
  events-health_rows c ((k, rs) ∷ gs) = ground (arith, events-health_rows c gs, length-ones rs)

  pub anomalies-health_rows :
      (c : String) (gs : List (String × List Processed))
      → at (λ r. r.total_anomalies) c (map (health_row fl) gs)
        ≡ sum_groups (λ k. k == c) (λ (r : Processed). r.is_anomaly) gs
  unfolding health_row
  anomalies-health_rows c [] = refl
  anomalies-health_rows c ((k, rs) ∷ gs) = ground (arith, anomalies-health_rows c gs)
