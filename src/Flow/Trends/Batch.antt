-- ===== src/Flow/Trends/Batch.antt =====
-- What one batch that `process` of src/processing/stream_processor.py handles adds to the trends.
use aiops_distributed_log.Prelude.{
  ℕ, ◌+◌, ◌≡◌, refl, ◌⊎◌, sym, ap, ◌∙◌, Bool, true, false, not, ◌&&◌, ◌||◌, List, [], String,
  Option, none, some, ok, err, is_ok, arith, any, map, length, sum_by, nat_beq, if◌then◌else◌, ◌==◌,
  string_eq, Bool-cases, Result-cases, inl, inr, append-nil, sum_by-map, any-map,
}
use aiops_distributed_log.Floats.{Floats}
use aiops_distributed_log.Tables.Rows.{BatchMetric}
use aiops_distributed_log.Stream.{Event, Processed}
use aiops_distributed_log.Stream.Train.{Ml, IsMl}
use aiops_distributed_log.Stream.Process.{
  Sinks, Answers, Processor, Jdbc, process, ensure_trained, score_batch, write_all, write_postgres,
}
use aiops_distributed_log.Stream.Process.Metrics.{write_postgres-undated}
use aiops_distributed_log.Stream.Process.Stages.{is_undated, date_of, mark_all, metric_row}
use aiops_distributed_log.Stream.Process.Egress.{Facts, event_facts, row_facts, facts-frame, frame}
use aiops_distributed_log.Flow.Trends.{Trend, sum_rows, stored, stored-written}

-- A value whose time could not be read has no date.
abbrev pub no_date : Facts → Bool
no_date (time, component, message, log_date, label) = elim log_date [ none ↦ true | some d ↦ false ]

abbrev pub counts_facts : Option String → (Trend → Bool) → Facts → ℕ
counts_facts c w (time, component, message, log_date, label) =
    let trend = w (component, date_of log_date) in
    elim c [
      | none ↦ (if trend then 1 else 0)
      | some a ↦ (if (component == a) && trend then 1 else 0)
    ]

-- How many events count towards the trends that pass a test.
abbrev pub count_in : Option String → (Trend → Bool) → List Event → ℕ
count_in c w = sum_by (λ e. counts_facts c w (event_facts e))

abbrev pub has_undated : List Event → Bool
has_undated = any (λ e. no_date (event_facts e))

sum_rows-facts :
    (c : Option String) (w : Trend → Bool) (rows : List Processed)
    → sum_rows c w (λ r. 1) rows ≡ sum_by (counts_facts c w) (map row_facts rows)
sum_rows-facts none w rows = sym (sum_by-map row_facts (counts_facts none w) rows)
sum_rows-facts (some a) w rows = sym (sum_by-map row_facts (counts_facts (some a) w) rows)

-- Rows with the facts of some events count as they do.
pub sum_rows-count_in :
    (c : Option String) (w : Trend → Bool) (rows : List Processed) (events : List Event)
    → map row_facts rows ≡ map event_facts events
    → sum_rows c w (λ r. 1) rows ≡ count_in c w events
sum_rows-count_in c w rows events h =
    sum_rows-facts c w rows
    ∙ ap (sum_by (counts_facts c w)) h
    ∙ sum_by-map event_facts (counts_facts c w) events

undated-rows :
    (rows : List Processed) (events : List Event)
    → map row_facts rows ≡ map event_facts events
    → any is_undated rows ≡ has_undated events
undated-rows rows events h =
    sym (any-map row_facts no_date rows) ∙ ap (any no_date) h ∙ any-map event_facts no_date events

unwritten :
    (j : Jdbc) (rows : List Processed) (table : List BatchMetric)
    → j.partial ≡ []
    → (j.fails || any is_undated rows) ≡ true
    → write_postgres j rows table ≡ table
unfolding write_postgres
unwritten j rows table clean h = elim (Bool-cases (any is_undated rows)) [
  | inl undated ↦ write_postgres-undated j rows table undated ∙ rw clean (append-nil table)
  | inr dated ↦ ground (arith, append-nil table)
]

-- A column of `batch_metrics` adds up a quantity of the events.
abbrev pub IsSum : (BatchMetric → ℕ) → (Processed → ℕ) → Type 0
IsSum f g =
    (k : String × (Option ℕ × Option String)) (rows : List Processed)
    → f (metric_row (k, rows)) ≡ sum_by g rows

-- The rows of a frame that `batch_metrics` receives: all, or with one undated row none.
abbrev pub accepted : Jdbc → List Processed → List Processed
accepted j rows = if j.fails || any is_undated rows then [] else rows

stored-write_postgres :
    (c : Option String) (w : Trend → Bool) (f : BatchMetric → ℕ) (g : Processed → ℕ) (j : Jdbc)
    (rows : List Processed) (table : List BatchMetric)
    → IsSum f g
    → j.partial ≡ []
    → stored c w f (write_postgres j rows table)
      ≡ stored c w f table + sum_rows c w g (accepted j rows)
stored-write_postgres c w f g j rows table sums clean =
    elim (Bool-cases (j.fails || any is_undated rows)) [
      | inl bad ↦ rw (unwritten j rows table clean bad, bad) (omega arith)
      | inr good ↦ rw good (stored-written c w f g j rows table sums (ground arith) (ground arith))
    ]

accepted-nil : (j : Jdbc) → accepted j [] ≡ []
accepted-nil j = ground arith

facts-accepted :
    (j : Jdbc) (rows : List Processed) (events : List Event)
    → map row_facts rows ≡ map event_facts events
    → map row_facts (accepted j rows)
      ≡ map event_facts (if not (j.fails || has_undated events) then events else [])
facts-accepted j rows events facts =
    rw (undated-rows rows events facts) (elim (Bool-cases (j.fails || has_undated events)) [
      | inl bad ↦ rw bad refl
      | inr good ↦ rw good facts
    ])

module _ (fl : Floats) (ml : Ml) (show_time : ℕ → String) where
  open fl use {F}
  open ml use {Nlp, Km}

  -- Whether `batch_metrics` receives a batch: it has events, a model is found or trained, the
  -- events are scored and all dated, and the write does not fail.
  abbrev pub is_received : Answers F → List Event → Processor Nlp Km → Bool
  is_received a events self =
      not (nat_beq (length events) 0) && elim (ensure_trained fl ml show_time events self) [
        | err e ↦ false
        | ok self' ↦
            is_ok (score_batch fl ml show_time events self')
            && not (a.jdbc.fails || has_undated events)
      ]

  -- The rows of a batch that is scored, with the anomalies that the models find.
  abbrev pub scored_rows : Answers F → List Event → Processor Nlp Km → List Processed
  scored_rows a events self =
      if nat_beq (length events) 0 then [] else elim (ensure_trained fl ml show_time events self) [
        | err e ↦ []
        | ok self' ↦ elim (score_batch fl ml show_time events self') [
          | err e ↦ []
          | ok scored ↦ mark_all a.event_ids a.processed_at self'.anomaly_cluster scored
        ]
      ]

  -- Those of them that `batch_metrics` receives.
  abbrev pub received_rows : Answers F → List Event → Processor Nlp Km → List Processed
  received_rows a events self = accepted a.jdbc (scored_rows a events self)

  sent :
      (a : Answers F) (batch_id : ℕ) (events : List Event) (self : Processor Nlp Km) (s : Sinks F)
      {self' : Processor Nlp Km} {scored : List (Event × ℕ)}
      → nat_beq (length events) 0 ≡ false
      → ensure_trained fl ml show_time events self ≡ ok self'
      → score_batch fl ml show_time events self' ≡ ok scored
      → (process fl ml show_time a batch_id events self s).1.batch_metrics
        ≡ write_postgres a.jdbc
            (mark_all a.event_ids a.processed_at self'.anomaly_cluster scored)
            s.batch_metrics
  unfolding process write_all
  sent a batch_id events self s rows went scoring = ground arith

  -- One batch adds its rows to the stored sums, or none of them.
  pub stored-process :
      (c : Option String) (w : Trend → Bool) (f : BatchMetric → ℕ) (g : Processed → ℕ)
      (a : Answers F) (batch_id : ℕ) (events : List Event) (self : Processor Nlp Km) (s : Sinks F)
      → IsSum f g
      → a.jdbc.partial ≡ []
      → stored c w f (process fl ml show_time a batch_id events self s).1.batch_metrics
        ≡ stored c w f s.batch_metrics + sum_rows c w g (received_rows a events self)
  unfolding process write_all
  stored-process c w f g a batch_id events self s sums clean =
      elim (Bool-cases (nat_beq (length events) 0)) [
        | inl empty ↦ ground arith
        | inr rows ↦ elim (Result-cases (ensure_trained fl ml show_time events self)) [
          | inr (e, raised) ↦ ground arith
          | inl (self', went) ↦ elim (Result-cases (score_batch fl ml show_time events self')) [
            | inr (e, unscored) ↦ ground arith
            | inl (scored, scoring) ↦
                let new = mark_all a.event_ids a.processed_at self'.anomaly_cluster scored in
                ap (stored c w f) (sent a batch_id events self s rows went scoring)
                ∙ rw (rows, went, scoring)
                    (stored-write_postgres c w f g a.jdbc new s.batch_metrics sums clean)
          ]
        ]
      ]

  pub facts-received_rows :
      (is : IsMl ml) (a : Answers F) (events : List Event) (self : Processor Nlp Km)
      → map row_facts (received_rows a events self)
        ≡ map event_facts (if is_received a events self then events else [])
  facts-received_rows is a events self = elim (Bool-cases (nat_beq (length events) 0)) [
    | inl empty ↦ rw (empty, accepted-nil a.jdbc) refl
    | inr rows ↦ elim (Result-cases (ensure_trained fl ml show_time events self)) [
      | inr (e, raised) ↦ rw (rows, raised, accepted-nil a.jdbc) refl
      | inl (self', went) ↦ elim (Result-cases (score_batch fl ml show_time events self')) [
        | inr (e, unscored) ↦ rw (rows, went, unscored, accepted-nil a.jdbc) refl
        | inl (scored, scoring) ↦
            rw (rows, went, scoring)
              (facts-accepted a.jdbc (frame fl ml is show_time a self' scored) events
                (facts-frame fl ml is show_time a events self' scoring))
      ]
    ]
  ]

  -- The rows of a scored batch have the facts of its events; of another batch there are none.
  facts-scored_rows :
      (is : IsMl ml) (a : Answers F) (events : List Event) (self : Processor Nlp Km)
      → (scored_rows a events self ≡ [])
        ⊎ (map row_facts (scored_rows a events self) ≡ map event_facts events)
  facts-scored_rows is a events self = elim (Bool-cases (nat_beq (length events) 0)) [
    | inl empty ↦ inl (rw empty refl)
    | inr rows ↦ elim (Result-cases (ensure_trained fl ml show_time events self)) [
      | inr (e, raised) ↦ inl (rw (rows, raised) refl)
      | inl (self', went) ↦ elim (Result-cases (score_batch fl ml show_time events self')) [
        | inr (e, unscored) ↦ inl (rw (rows, went, unscored) refl)
        | inl (scored, scoring) ↦
            inr (rw (rows, went, scoring) (facts-frame fl ml is show_time a events self' scoring))
      ]
    ]
  ]

  -- Without a failure and an undated event, all scored rows are received.
  pub received_rows-scored_rows :
      (is : IsMl ml) (a : Answers F) (events : List Event) (self : Processor Nlp Km)
      → a.jdbc.fails ≡ false
      → has_undated events ≡ false
      → received_rows a events self ≡ scored_rows a events self
  received_rows-scored_rows is a events self fine dated =
      elim (facts-scored_rows is a events self) [
        | inl nothing ↦ rw nothing (accepted-nil a.jdbc)
        | inr facts ↦ rw (fine, undated-rows (scored_rows a events self) events facts ∙ dated) refl
      ]
