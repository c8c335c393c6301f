-- ===== src/Training/Tests.antt =====
-- A run of the training.
use aiops_distributed_log.Prelude.{
  ℕ, ◌≡◌, refl, true, List, [], ◌∷◌, String, none, some, ok, err, map, ◌==◌, string_eq,
  if◌then◌else◌,
}
use aiops_distributed_log.Tables.{group_by}
use aiops_distributed_log.Stream.Metrics.{Matrix}
use aiops_distributed_log.Training.Main.{
  Readers, Writes, delta, csv, main, HasTrained, metadata_of-main,
}
use aiops_distributed_log.Training.{
  nlp_pipeline, kmeans_model, model_metadata, Sample, Ml, load_training_data,
}

abbrev sample : String → ℕ → Sample
sample m l = record { message = some m; is_anomaly = some l }

abbrev samples : List Sample
samples = sample "ok" 0 ∷ sample "fault" 1 ∷ sample "ok" 0 ∷ sample "fault" 0 ∷ []

load_run : load_training_data (sample "" 1 ∷ samples) ≡ ok samples
unfolding load_training_data
load_run = refl

abbrev cluster_of : Sample → Sample × ℕ
cluster_of s = (s, elim s.message [ none ↦ 0 | some m ↦ if m == "fault" then 1 else 0 ])

abbrev toy : Ml
toy = record {
  Nlp = Unit {0};
  Km = Unit {0};
  fit_nlp = λ df. ok tt;
  fit_km = λ nlp df. ok tt;
  predict = λ nlp km df. ok (map cluster_of df);
  silhouette = λ rows. ok tt;
}

abbrev matrix : Matrix
matrix = record { tp = 1; fp = 1; tn = 2; fn = 0 }

abbrev lake : Readers
lake = record {
  read_delta = λ path.
      if path == "s3a://telemetry-lakehouse/processed_logs"
      then ok (sample "" 1 ∷ samples)
      else err "AnalysisException";
  read_csv = λ path. err "AnalysisException";
}

abbrev written : Writes
written = record { nlp = ok tt; km = ok tt; put = ok tt }

-- An empty path counts as none; a CSV file that cannot be read leaves the bucket alone.
main_run :
    main toy lake delta (some "") true written []
    ≡ nlp_pipeline ∷ kmeans_model ∷ model_metadata 1 ∷ []
unfolding main group_by
main_run = refl

csv_run : main toy lake csv (some "x") true written (kmeans_model ∷ []) ≡ kmeans_model ∷ []
unfolding main
csv_run = refl

metadata_of-main_example :
    (main toy lake delta none true written [] ≡ nlp_pipeline ∷ kmeans_model ∷ model_metadata 1 ∷ [])
    × HasTrained toy lake delta none true 1
unfolding main group_by
metadata_of-main_example = metadata_of-main toy lake delta none true written 1 refl
