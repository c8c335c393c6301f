-- ===== src/Training/Main.antt =====
-- src/ml/train_model.py, `main`: what is read, and what a whole run leaves in the bucket.
use aiops_distributed_log.Prelude.{
  ℕ, ◌≡◌, Bool, List, [], ◌∷◌, String, Option, none, some, Result, ok, err, ◌>>=◌, inl, inr,
  Result-cases, if◌then◌else◌, ◌==◌, string_eq, arith,
}
use aiops_distributed_log.Training.{
  Sample, Ml, Saved, nlp_pipeline, kmeans_model, model_metadata, load_training_data, train,
  save_models,
}
use aiops_distributed_log.Stream.Metrics.{Matrix}

-- The choices of `--source`.
pub data Source : Type 0 where
  delta csv : Source

-- `spark.read` of a Delta table and of a CSV file; no path is None.
pub record Readers : Type 0 where
  pub read_delta : String → Result (List Sample)
  pub read_csv : Option String → Result (List Sample)

abbrev default_path : String
default_path = "s3a://telemetry-lakehouse/processed_logs"

-- `input_path or f"{LAKEHOUSE_BUCKET}/processed_logs"`
abbrev pub path_of : Option String → String
path_of none = default_path
path_of (some path) = if path == "" then default_path else path

unfoldable pub read : Readers → Source → Option String → Result (List Sample)
read rs delta input = rs.read_delta (path_of input)
read rs csv input = rs.read_csv input

-- What the three writes of `save_models` do.
pub record Writes : Type 0 where
  pub nlp : Result (Unit {0})
  pub km : Result (Unit {0})
  pub put : Result (Unit {0})

module _ (ml : Ml) (rs : Readers) where
  -- `has_label` is whether the frame has the column `is_anomaly`. Where something raises, or the program
  -- exits, the bucket stays as it is.
  unfoldable pub main : Source → Option String → Bool → Writes → List Saved → List Saved
  unfolding read load_training_data train save_models
  main source input has_label ws bucket =
      let trained = do
        rows ← read rs source input
        df ← load_training_data rows
        train ml has_label df
      in elim trained [
        | err e ↦ bucket
        | ok (nlp, km, c, m) ↦ save_models ws.nlp ws.km ws.put c bucket
      ]

-- The cluster that the metadata in the bucket name.
abbrev pub metadata_of : List Saved → Option ℕ
metadata_of [] = none
metadata_of (nlp_pipeline ∷ bucket) = metadata_of bucket
metadata_of (kmeans_model ∷ bucket) = metadata_of bucket
metadata_of (model_metadata c ∷ bucket) = some c

metadata_of-save_models :
    (nlp_saved km_saved put : Result (Unit {0})) (c c' : ℕ)
    → metadata_of (save_models nlp_saved km_saved put c' []) ≡ some c
    → (c' ≡ c)
      × (save_models nlp_saved km_saved put c' []
          ≡ nlp_pipeline ∷ kmeans_model ∷ model_metadata c ∷ [])
unfolding save_models
metadata_of-save_models (err e) km_saved put c c' h = absurd (ground arith)
metadata_of-save_models (ok _) (err e) put c c' h = absurd (ground arith)
metadata_of-save_models (ok _) (ok _) (err e) c c' h = absurd (ground arith)
metadata_of-save_models (ok _) (ok _) (ok _) c c' h = (ground arith, ground arith)

module _ (ml : Ml) (rs : Readers) where
  -- The run that the metadata of a cluster come from.
  pub record HasTrained (source : Source) (input : Option String) (has_label : Bool) (c : ℕ)
      : Type 0 where
    pub rows : List Sample
    pub df : List Sample
    pub read_lem : read rs source input ≡ ok rows
    pub load_lem : load_training_data rows ≡ ok df
    pub nlp : ml.Nlp
    pub km : ml.Km
    pub matrix : Option Matrix
    pub train_lem : train ml has_label df ≡ ok (nlp, km, c, matrix)

  -- Where a run on an empty bucket leaves metadata of a cluster, both models are there as well, and
  -- the cluster is the one of a training that has returned, on the rows that were read less those
  -- without a text.
  pub metadata_of-main :
      (source : Source) (input : Option String) (has_label : Bool) (ws : Writes) (c : ℕ)
      → metadata_of (main ml rs source input has_label ws []) ≡ some c
      → (main ml rs source input has_label ws []
          ≡ nlp_pipeline ∷ kmeans_model ∷ model_metadata c ∷ [])
        × HasTrained source input has_label c
  unfolding main
  metadata_of-main source input has_label ws c h = elim (Result-cases (read rs source input)) [
    | inr (e, raised) ↦ absurd (ground arith)
    | inl (rows, found) ↦ elim (Result-cases (load_training_data rows)) [
      | inr (e, raised) ↦ absurd (ground arith)
      | inl (df, loaded) ↦ elim (Result-cases (train ml has_label df)) [
        | inr (e, raised) ↦ absurd (ground arith)
        | inl ((nlp, km, c', m), trained) ↦
            let (same, saved) = metadata_of-save_models ws.nlp ws.km ws.put c c' (ground arith) in
            (
              ground arith,
              record {
                rows = rows;
                df = df;
                read_lem = found;
                load_lem = loaded;
                nlp = nlp;
                km = km;
                matrix = m;
                train_lem = ground arith;
              },
            )
      ]
    ]
  ]
