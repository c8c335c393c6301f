-- ===== src/Flow/Health.antt =====
-- From `_update_component_health` of src/processing/stream_processor.py, batch after batch, to
-- `get_component_health` of src/api/main.py.
mod Tests
use aiops_distributed_log.Prelude.{
  ℕ, ◌+◌, ◌≤◌, ◌≡◌, refl, sym, ap, ◌∙◌, Bool, true, false, List, [], ◌∷◌, ◌++◌, String, Option,
  none, some, Result, ok, err, arith, map, length, sum_by, sum_by-append, nat_beq, if◌then◌else◌,
  ◌==◌, ==_iff, string_eq, Bool-cases, Result-cases, inl, inr, ltb, contains,
}
use mathlib.Core.Path.{subst}
use aiops_distributed_log.Floats.{Floats}
use aiops_distributed_log.Postgres.{Psycopg, IsPsycopg}
use aiops_distributed_log.Tables.{group_by}
use aiops_distributed_log.Tables.Groups.{AreDistinct}
use aiops_distributed_log.Tables.Rows.{HealthRow}
use aiops_distributed_log.Stream.{Event, Processed}
use aiops_distributed_log.Stream.Enrich.{Parsers, enrich}
use aiops_distributed_log.Stream.Train.{Ml}
use aiops_distributed_log.Stream.Transactions.{transaction}
use aiops_distributed_log.Stream.Health.{upsert, health_rows, write_health, update_component_health}
use aiops_distributed_log.Stream.Health.Totals.{at, HasKeys, events_of, anomalies_of}
use aiops_distributed_log.Stream.Health.Batch.{
  update_component_health_lem, update_component_health-err,
}
use aiops_distributed_log.Stream.Process.{
  Sinks, Answers, Processor, new_processor, process, ensure_trained, score_batch, write_all,
}
use aiops_distributed_log.Stream.Process.Stages.{mark_all}
use aiops_distributed_log.Stream.Job.{MicroBatch, run_query, main}
use aiops_distributed_log.Flow.Trends.Batch.{scored_rows}
use aiops_distributed_log.Api.Queries.{rows}
use aiops_distributed_log.Api.Queries.Summary.{IsSort, get_component_health}

module _ (fl : Floats) (ml : Ml) (show_time : ℕ → String) where
  open fl use {F}
  open ml use {Nlp, Km}

  nothing :
      (p : Psycopg (List (HealthRow F))) (table : List (HealthRow F))
      → update_component_health fl p [] table ≡ table
  unfolding update_component_health group_by
  nothing p table = refl

  health-process :
      (a : Answers F) (batch_id : ℕ) (events : List Event) (self : Processor Nlp Km) (s : Sinks F)
      → (process fl ml show_time a batch_id events self s).1.component_health
        ≡ update_component_health fl a.health_db
            (scored_rows fl ml show_time a events self)
            s.component_health
  unfolding process write_all
  health-process a batch_id events self s = elim (Bool-cases (nat_beq (length events) 0)) [
    | inl empty ↦ ground (arith, nothing a.health_db s.component_health)
    | inr full ↦ elim (Result-cases (ensure_trained fl ml show_time events self)) [
      | inr (e, raised) ↦ ground (arith, nothing a.health_db s.component_health)
      | inl (self', went) ↦ elim (Result-cases (score_batch fl ml show_time events self')) [
        | inr (e, unscored) ↦ ground (arith, nothing a.health_db s.component_health)
        | inl (scored, scoring) ↦ ground arith
      ]
    ]
  ]

-- The rows of a frame whose upserts go through; a transaction that raises records none.
abbrev pub recorded_rows :
    (fl : Floats)
    → Psycopg (List (HealthRow fl.F))
    → List Processed
    → List (HealthRow fl.F)
    → List Processed
recorded_rows fl p df table = elim (transaction p (upsert fl) (health_rows fl df) table).0 [
  | ok _ ↦ df
  | err e ↦ []
]

module _ (fl : Floats) (p : Psycopg (List (HealthRow fl.F))) (is : IsPsycopg p) where
  -- One transaction, whether it goes through or not.
  update_component_health-recorded :
      (df : List Processed) (table : List (HealthRow fl.F)) (c : String)
      → HasKeys fl table
      → let table' = update_component_health fl p df table in
        let new = recorded_rows fl p df table in
        (at fl (λ r. r.total_events) c table'
          ≡ at fl (λ r. r.total_events) c table + events_of c new)
        × (at fl (λ r. r.total_anomalies) c table'
            ≡ at fl (λ r. r.total_anomalies) c table + anomalies_of c new)
        × HasKeys fl table'
  update_component_health-recorded df table c keys =
      elim (Result-cases (transaction p (upsert fl) (health_rows fl df) table).0) [
        | inl (done, went) ↦
            rw (recorded_rows, went) (update_component_health_lem fl p is df table c keys went)
        | inr (e, raised) ↦
            rw (recorded_rows, raised, update_component_health-err fl p is df table e raised)
              (omega arith, omega arith, keys)
      ]

module _ (fl : Floats) (ml : Ml) (show_time : ℕ → String) (ps : Parsers) where
  open fl use {F}
  open ml use {Nlp, Km}

  -- The rows of the batches that are scored and whose upserts go through.
  abbrev pub recorded_events : ℕ → List (MicroBatch F) → Processor Nlp Km → Sinks F → List Processed
  recorded_events batch_id [] self s = []
  recorded_events batch_id (b ∷ bs) self s =
      let events = enrich ps b.values in
      let (self', s') = process fl ml show_time b.answers batch_id events self s in
      recorded_rows fl b.answers.health_db (scored_rows fl ml show_time b.answers events self)
        s.component_health
      ++ recorded_events (batch_id + 1) bs self' s'

  -- Each batch meets a PostgreSQL.
  unfoldable pub AreDatabases : List (MicroBatch F) → Type 0
  AreDatabases [] = Unit {0}
  AreDatabases (b ∷ bs) = IsPsycopg b.answers.health_db × AreDatabases bs

  health-query :
      (batch_id : ℕ) (bs : List (MicroBatch F)) (self : Processor Nlp Km) (s : Sinks F) (c : String)
      → AreDatabases bs
      → HasKeys fl s.component_health
      → let table' = (run_query fl ml show_time ps batch_id bs self s).1.component_health in
        let new = recorded_events batch_id bs self s in
        (at fl (λ r. r.total_events) c table'
          ≡ at fl (λ r. r.total_events) c s.component_health + events_of c new)
        × (at fl (λ r. r.total_anomalies) c table'
            ≡ at fl (λ r. r.total_anomalies) c s.component_health + anomalies_of c new)
        × HasKeys fl table'
  unfolding run_query AreDatabases
  health-query batch_id [] self s c dbs keys = (omega arith, omega arith, keys)
  health-query batch_id (b ∷ bs) self s c dbs keys =
      let events = enrich ps b.values in
      let out = process fl ml show_time b.answers batch_id events self s in
      let df = scored_rows fl ml show_time b.answers events self in
      let p = b.answers.health_db in
      let now = recorded_rows fl p df s.component_health in
      let rest = recorded_events (batch_id + 1) bs out.0 out.1 in
      let one = update_component_health-recorded fl p dbs.0 df s.component_health c keys in
      let same = health-process fl ml show_time b.answers batch_id events self s in
      let later =
        health-query (batch_id + 1) bs out.0 out.1 c dbs.1 (subst (HasKeys fl) (sym same) one.2) in
      (
        omega (
          arith,
          later.0,
          one.0,
          ap (at fl (λ r. r.total_events) c) same,
          sum_by-append (λ (r : Processed). if r.component == c then 1 else 0) now rest,
        ),
        omega (
          arith,
          later.1,
          one.1,
          ap (at fl (λ r. r.total_anomalies) c) same,
          sum_by-append (λ (r : Processed). if r.component == c then r.is_anomaly else 0) now rest,
        ),
        later.2,
      )

  one_row :
      (c : String) (table : List (HealthRow F))
      → HasKeys fl table
      → at fl (λ r. 1) c table
        ≡ (if contains (map (λ (r : HealthRow F). r.component) table) c then 1 else 0)
  one_row c [] keys = refl
  one_row c (row ∷ table) keys =
      ground (arith, one_row c table, ==_iff row.component c, ==_iff c row.component)

  at_most_one : {n : ℕ} (b : Bool) → n ≡ (if b then 1 else 0) → n ≤ 1
  at_most_one b h = ground arith

  answered :
      (sort : List (HealthRow F) → List (HealthRow F)) (table : List (HealthRow F))
      {answer : List (HealthRow F)}
      → get_component_health sort true (ok tt) table ≡ rows answer
      → answer ≡ sort table
  unfolding get_component_health
  answered sort table h = ground arith

  -- What the health endpoint answers after any run of the job, with any failures, on PostgreSQL
  -- and with a sort that only reorders: for each component the events, and the anomalies, are
  -- those of the table before and those of the batches that were scored and whose transaction
  -- went through, and the component has one row at most.
  pub job_health :
      (sort : List (HealthRow F) → List (HealthRow F)) (bs : List (MicroBatch F)) (s : Sinks F)
      (c : String) {answer : List (HealthRow F)}
      → IsSort sort
      → AreDatabases bs
      → HasKeys fl s.component_health
      → get_component_health sort true (ok tt) (main fl ml show_time ps bs s).1.component_health
        ≡ rows answer
      → let before = s.component_health in
        let new = recorded_events 0 bs new_processor s in
        (at fl (λ r. r.total_events) c answer
          ≡ at fl (λ r. r.total_events) c before + events_of c new)
        × (at fl (λ r. r.total_anomalies) c answer
            ≡ at fl (λ r. r.total_anomalies) c before + anomalies_of c new)
        × (at fl (λ r. 1) c answer ≤ 1)
  unfolding main
  job_health sort bs s c is_sort dbs keys h =
      let table' = (run_query fl ml show_time ps 0 bs new_processor s).1.component_health in
      let query = health-query 0 bs new_processor s c dbs keys in
      let found = answered sort table' h in
      let has = contains (map (λ (r : HealthRow F). r.component) table') c in
      (
        rw (found, is_sort) query.0,
        rw (found, is_sort) query.1,
        rw (found, is_sort) (at_most_one has (one_row c table' query.2)),
      )
