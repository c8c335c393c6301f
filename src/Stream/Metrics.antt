-- ===== src/Stream/Metrics.antt =====
-- src/processing/stream_processor.py, `_write_model_metrics`: predictions against labels.
pub mod Confusion
use aiops_distributed_log.Prelude.{
  ℕ, ◌+◌, Bool, true, false, ◌&&◌, List, [], ◌∷◌, ◌++◌, Option, none, some, Result, nat_beq, ltb,
  filter, length, sum_by, if◌then◌else◌,
}
use aiops_distributed_log.Floats.{Floats}
use aiops_distributed_log.Postgres.{Psycopg}
use aiops_distributed_log.Tables.Rows.{ModelMetric}
use aiops_distributed_log.Stream.{Processed}
use aiops_distributed_log.Stream.Transactions.{transaction}

-- `F.col("label_original").isNotNull()`
abbrev pub is_labelled : Processed → Bool
is_labelled r = elim r.label_original [ none ↦ false | some l ↦ true ]

-- `F.col("label_original") == l`, false on null
abbrev pub label_is : ℕ → Processed → Bool
label_is n r = elim r.label_original [ none ↦ false | some l ↦ nat_beq l n ]

-- `F.sum(F.when(predicted & actual, 1).otherwise(0))`
abbrev pub cell : ℕ → ℕ → List Processed → ℕ
cell predicted actual =
    sum_by (λ r. if nat_beq r.is_anomaly predicted && label_is actual r then 1 else 0)

pub record Matrix : Type 0 where
  pub tp : ℕ
  pub fp : ℕ
  pub tn : ℕ
  pub fn : ℕ

unfoldable pub confusion : List Processed → Matrix
confusion rows = record {
  tp = cell 1 1 rows;
  fp = cell 1 0 rows;
  tn = cell 0 0 rows;
  fn = cell 0 1 rows;
}

module _ (fl : Floats) where
  open fl use {F, of_ℕ, quotient, add, times, divide, gt}

  -- `a / b if b > 0 else 0.0`
  abbrev pub ratio : ℕ → ℕ → F
  ratio a b = if ltb 0 b then quotient a b else of_ℕ 0

  unfoldable pub f1_score : F → F → F
  f1_score precision recall =
      if gt (add precision recall) (of_ℕ 0)
      then divide (times (times (of_ℕ 2) precision) recall) (add precision recall)
      else of_ℕ 0

  unfoldable pub metric_row : ℕ → ℕ → Matrix → ModelMetric F
  unfolding f1_score
  metric_row batch_id total cm =
      let precision = ratio cm.tp (cm.tp + cm.fp) in
      let recall = ratio cm.tp (cm.tp + cm.fn) in
      record {
        batch_id = batch_id;
        total_count = total;
        accuracy = ratio (cm.tp + cm.tn) total;
        precision_score = precision;
        recall_score = recall;
        f1_score = f1_score precision recall;
        true_positives = cm.tp;
        false_positives = cm.fp;
        true_negatives = cm.tn;
        false_negatives = cm.fn;
      }

  abbrev pub insert_metric : ModelMetric F → List (ModelMetric F) → List (ModelMetric F)
  insert_metric row table = table ++ row ∷ []

  unfoldable pub write_model_metrics :
      Psycopg (List (ModelMetric F))
      → ℕ
      → List Processed
      → List (ModelMetric F)
      → List (ModelMetric F)
  unfolding confusion metric_row
  write_model_metrics p batch_id processed table =
      let eval_df = filter is_labelled processed in
      let total = length eval_df in
      if nat_beq total 0
      then table
      else (transaction p insert_metric (metric_row batch_id total (confusion eval_df) ∷ [])
          table).1
