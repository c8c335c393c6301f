-- ===== src/Stream/Metrics/Confusion.antt =====
-- The metrics of `_write_model_metrics` of src/processing/stream_processor.py as ratios.
use aiops_distributed_log.Prelude.{
  ℕ, ◌+◌, ◌≡◌, refl, ◌≤◌, ◌<◌, inl, inr, true, List, [], ◌∷◌, none, some, arith, All, nat_beq, ltb,
  filter, length, count_if, if◌then◌else◌, Bool-cases, Option-cases, ok, err, length-filter,
}
use aiops_distributed_log.Floats.{Floats, IsFloats, Leq}
use aiops_distributed_log.Postgres.{Psycopg, IsPsycopg}
use aiops_distributed_log.Tables.Rows.{ModelMetric}
use aiops_distributed_log.Stream.{Processed}
use aiops_distributed_log.Stream.Transactions.{transaction, transaction_lem}
use aiops_distributed_log.Stream.Metrics.{
  is_labelled, label_is, confusion, ratio, metric_row, insert_metric, write_model_metrics,
}

-- A prediction is 0 or 1, and so is a label, where there is one.
abbrev pub IsBinary : Processed → Type 0
IsBinary r = (r.is_anomaly ≤ 1) × (elim r.label_original [ none ↦ 0 | some l ↦ l ] ≤ 1)

-- The labelled rows that are predicted, or labelled, to be anomalies.
abbrev pub predicted : List Processed → ℕ
predicted = count_if (λ r. nat_beq r.is_anomaly 1)

abbrev pub actual : List Processed → ℕ
actual = count_if (label_is 1)

-- Every labelled row is in exactly one cell: the cells add up to the number of rows, the first
-- two to the predicted anomalies, and the true positives and false negatives to the real ones.
pub confusion_lem :
    (rows : List Processed)
    → All IsBinary rows
    → let eval_df = filter is_labelled rows in
      let cm = confusion eval_df in
      (cm.tp + cm.fp + cm.tn + cm.fn ≡ length eval_df)
      × (cm.tp + cm.fp ≡ predicted eval_df)
      × (cm.tp + cm.fn ≡ actual eval_df)
unfolding confusion
confusion_lem [] h = (refl, refl, refl)
confusion_lem (r ∷ rs) h = elim (Option-cases r.label_original) [
  | inl e ↦ ground (arith, confusion_lem rs h.1)
  | inr (l, e) ↦ ground (arith, confusion_lem rs h.1)
]

-- Without the assumption on the labels the cells never exceed the rows.
pub cells-le :
    (rows : List Processed) → let cm = confusion rows in cm.tp + cm.fp + cm.tn + cm.fn ≤ length rows
unfolding confusion
cells-le [] = omega arith
cells-le (r ∷ rs) = elim (Option-cases r.label_original) [
  | inl e ↦ ground (arith, cells-le rs)
  | inr (l, e) ↦ ground (arith, cells-le rs)
]

module _ (fl : Floats) (is : IsFloats fl) where
  open fl use {F, of_ℕ, quotient}

  -- A ratio of a part to its whole.
  abbrev pub InUnit : F → Type 0
  InUnit x = Leq fl (of_ℕ 0) x × Leq fl x (of_ℕ 1)

  ratio_bounds : (a b : ℕ) → a ≤ b → InUnit (ratio fl a b)
  ratio_bounds a b h = elim (Bool-cases (ltb 0 b)) [
    | inl some_rows ↦
        let p : 0 < b = ground arith in
        rw some_rows (
          rw (← is.quotient_zero b p) (is.quotient_mono 0 a b p (omega arith)),
          rw (← is.quotient_self b p) (is.quotient_mono a b b p h),
        )
    | inr no_rows ↦ rw no_rows (is.Leq-refl (of_ℕ 0), is.gt_whole 0 1 (omega arith))
  ]

  -- Accuracy, precision and recall of every batch lie between 0 and 1, whatever the labels.
  pub metric_row_bounds :
      (batch_id : ℕ) (rows : List Processed)
      → let m = metric_row fl batch_id (length rows) (confusion rows) in
        InUnit m.accuracy × InUnit m.precision_score × InUnit m.recall_score
  unfolding metric_row
  metric_row_bounds batch_id rows =
      let cm = confusion rows in
      (
        ratio_bounds (cm.tp + cm.tn) (length rows) (omega (arith, cells-le rows)),
        ratio_bounds cm.tp (cm.tp + cm.fp) (omega arith),
        ratio_bounds cm.tp (cm.tp + cm.fn) (omega arith),
      )

-- The prediction of a row agrees with its label.
abbrev pub Agrees : Processed → Type 0
Agrees r = label_is r.is_anomaly r ≡ true

agreeing :
    (rows : List Processed)
    → All IsBinary rows
    → All Agrees rows
    → let cm = confusion rows in (cm.tp + cm.tn ≡ length rows) × (cm.fp ≡ 0) × (cm.fn ≡ 0)
unfolding confusion
agreeing [] h a = (refl, refl, refl)
agreeing (r ∷ rs) h a = elim (Option-cases r.label_original) [
  | inl e ↦ ground (arith, agreeing rs h.1 a.1)
  | inr (l, e) ↦ ground (arith, agreeing rs h.1 a.1)
]

module _ (fl : Floats) (is : IsFloats fl) where
  open fl use {of_ℕ}

  -- A model that agrees with every label of a batch that is not empty has accuracy 1, and no
  -- false positives or negatives.
  pub metric_row-perfect :
      (batch_id : ℕ) (rows : List Processed)
      → 0 < length rows
      → All IsBinary rows
      → All Agrees rows
      → let m = metric_row fl batch_id (length rows) (confusion rows) in
        (m.accuracy ≡ of_ℕ 1) × (m.false_positives ≡ 0) × (m.false_negatives ≡ 0)
  unfolding metric_row
  metric_row-perfect batch_id rows n h a =
      let (correct, fp, fn) = agreeing rows h a in (rw correct (ratio-self (length rows) n), fp, fn)
    where
      ratio-self : (k : ℕ) → 0 < k → ratio fl k k ≡ of_ℕ 1
      ratio-self k p = ground (arith, is.quotient_self k p)

module _ (fl : Floats) (is : IsFloats fl) (p : Psycopg (List (ModelMetric fl.F)))
    (ip : IsPsycopg p) where
  open fl use {F, of_ℕ, quotient}

  -- What the method does to `model_metrics`: without a labelled row it writes nothing; otherwise
  -- it adds the metrics of the labelled rows, or, where the transaction raises, nothing.
  pub write_model_metrics_lem :
      (batch_id : ℕ) (rows : List Processed) (table : List (ModelMetric F))
      → let eval_df = filter is_labelled rows in
        let row = metric_row fl batch_id (length eval_df) (confusion eval_df) in
        write_model_metrics fl p batch_id rows table ≡ (
          if nat_beq (count_if is_labelled rows) 0
          then table
          else elim (transaction p (insert_metric fl) (row ∷ []) table).0 [
            | ok _ ↦ insert_metric fl row table
            | err e ↦ table
          ])
  unfolding write_model_metrics
  write_model_metrics_lem batch_id rows table =
      let eval_df = filter is_labelled rows in
      let row = metric_row fl batch_id (length eval_df) (confusion eval_df) in
      rw (← length-filter is_labelled rows)
        (rw (transaction_lem p (insert_metric fl) ip (row ∷ []) table) refl)
