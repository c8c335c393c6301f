-- ===== src/Training.antt =====
-- src/ml/train_model.py: the offline training, its evaluation, and what it saves.
pub mod Main
mod Tests
use aiops_distributed_log.Prelude.{
  ℕ, ◌≤◌, Bool, true, false, not, ◌&&◌, List, [], ◌∷◌, ◌++◌, String, Option, none, some, Result, ok,
  err, ◌>>=◌, filter, length, map, nat_beq, sum_by, count_if, is_empty, if◌then◌else◌, ◌==◌,
  string_eq, nat_eq, Bool-cases,
}
use aiops_distributed_log.Stream.Train.{choose_cluster}
use aiops_distributed_log.Stream.Metrics.{Matrix}

-- A row of the training data, as far as the program reads it.
pub record Sample : Type 0 where
  pub message : Option String
  pub is_anomaly : Option ℕ

abbrev pub has_text : Sample → Bool
has_text r = elim r.message [ none ↦ false | some m ↦ not (m == "") ]

-- Without a row the program exits.
unfoldable pub load_training_data : List Sample → Result (List Sample)
load_training_data df =
    let kept = filter has_text df in if is_empty kept then err "SystemExit" else ok kept

-- Spark ML on the samples: what its calls return or raise.
pub record Ml : Type 1 where
  pub Nlp : Type 0
  pub Km : Type 0
  pub fit_nlp : List Sample → Result Nlp
  pub fit_km : Nlp → List Sample → Result Km
  -- the samples with their clusters
  pub predict : Nlp → Km → List Sample → Result (List (Sample × ℕ))
  pub silhouette : List (Sample × ℕ) → Result (Unit {0})

abbrev pub label : Sample × ℕ → Option ℕ
label r = r.0.is_anomaly

-- `(predicted == p) & (is_anomaly == l)`
abbrev pub in_cell : ℕ → ℕ → ℕ → Sample × ℕ → Bool
in_cell c p l r =
    nat_beq (if nat_beq r.1 c then 1 else 0) p
    && elim (label r) [ none ↦ false | some l' ↦ nat_beq l' l ]

abbrev pub is_labelled : Sample × ℕ → Bool
is_labelled r = elim (label r) [ none ↦ false | some l ↦ true ]

-- The confusion matrix of the evaluation, none where no row has a label.
unfoldable pub evaluate : ℕ → List (Sample × ℕ) → Option Matrix
evaluate c predictions =
    let eval_df = filter is_labelled predictions in
    if nat_beq (length eval_df) 0
    then none
    else some (record {
      tp = count_if (in_cell c 1 1) eval_df;
      fp = count_if (in_cell c 1 0) eval_df;
      tn = count_if (in_cell c 0 0) eval_df;
      fn = count_if (in_cell c 0 1) eval_df;
    })

module _ (ml : Ml) where
  open ml use {Nlp, Km, fit_nlp, fit_km, predict, silhouette}

  -- `has_label` is whether the frame has the column `is_anomaly`. The evaluation is logged only; it
  -- is the last component of the result.
  unfoldable pub train : Bool → List Sample → Result (Nlp × Km × ℕ × Option Matrix)
  unfolding choose_cluster evaluate
  train has_label df = do
    nlp ← fit_nlp df
    km ← fit_km nlp df
    predictions ← predict nlp km df
    _ ← silhouette predictions
    anomaly_cluster ← choose_cluster label (λ r. r.1) has_label predictions
    ok (nlp, km, anomaly_cluster, if has_label then evaluate anomaly_cluster predictions else none)

-- The objects in the bucket `aiops-models`.
pub data Saved : Type 0 where
  nlp_pipeline kmeans_model : Saved
  model_metadata : ℕ → Saved

-- The three writes, each of which can raise; the next is made only where the one before returned.
unfoldable pub save_models :
    Result (Unit {0}) → Result (Unit {0}) → Result (Unit {0}) → ℕ → List Saved → List Saved
save_models (err e) km_saved put c bucket = bucket
save_models (ok _) (err e) put c bucket = bucket ++ nlp_pipeline ∷ []
save_models (ok _) (ok _) (err e) c bucket = bucket ++ nlp_pipeline ∷ kmeans_model ∷ []
save_models (ok _) (ok _) (ok _) c bucket =
    bucket ++ nlp_pipeline ∷ kmeans_model ∷ model_metadata c ∷ []

-- The labels are 0 and 1.
abbrev pub IsBinary : Sample × ℕ → Type 0
IsBinary r = elim (label r) [ none ↦ 0 | some l ↦ l ] ≤ 1
