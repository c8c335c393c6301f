-- ===== src/Scripts/Submit.antt =====
-- scripts/submit_spark_job.py: the sources are copied into the container of the Spark master, and one
-- of the two jobs is submitted there.
use aiops_distributed_log.Prelude.{ℕ, ◌≡◌, ◌≢◌, ◌∷◌, [], ◌++◌, List, String, if◌then◌else◌, arith}
use aiops_distributed_log.Chaos.Host.{Completed, succeeded}

-- The keys of `JOBS`, which are the choices of `--job`.
pub data Job : Type 0 where
  stream_processor train_model : Job

abbrev pub script : Job → String
script stream_processor = "/app/src/processing/stream_processor.py"
script train_model = "/app/src/ml/train_model.py"

abbrev pub jars : String
jars =
    "/opt/spark/jars/spark-sql-kafka-0-10_2.12-3.5.0.jar,/opt/spark/jars/spark-token-provider-kafka-0-10_2.12-3.5.0.jar,/opt/spark/jars/kafka-clients-3.4.1.jar,/opt/spark/jars/commons-pool2-2.11.1.jar,/opt/spark/jars/postgresql-42.7.1.jar,/opt/spark/jars/delta-spark_2.12-3.0.0.jar,/opt/spark/jars/delta-storage-3.0.0.jar,/opt/spark/jars/hadoop-aws-3.3.4.jar,/opt/spark/jars/aws-java-sdk-bundle-1.12.262.jar"

abbrev pub copy_command : List String
copy_command = "docker" ∷ "cp" ∷ "src/." ∷ "spark-master:/app/src" ∷ []

unfoldable pub submit_command : Job → List String → List String
submit_command job extra_args =
    ("docker"
      ∷ "exec"
      ∷ "spark-master"
      ∷ "spark-submit"
      ∷ "--master"
      ∷ "spark://spark-master:7077"
      ∷ "--jars"
      ∷ jars
      ∷ "--conf"
      ∷ "spark.sql.extensions=io.delta.sql.DeltaSparkSessionExtension"
      ∷ "--conf"
      ∷ "spark.sql.catalog.spark_catalog=org.apache.spark.sql.delta.catalog.DeltaCatalog"
      ∷ "--conf"
      ∷ "spark.hadoop.fs.s3a.endpoint=http://minio-oss:9000"
      ∷ "--conf"
      ∷ "spark.hadoop.fs.s3a.path.style.access=true"
      ∷ "--conf"
      ∷ "spark.hadoop.fs.s3a.connection.ssl.enabled=false"
      ∷ "--conf"
      ∷ "spark.hadoop.fs.s3a.impl=org.apache.hadoop.fs.s3a.S3AFileSystem"
      ∷ "--conf"
      ∷ "spark.hadoop.fs.s3a.access.key=aiops_admin"
      ∷ "--conf"
      ∷ "spark.hadoop.fs.s3a.secret.key=aiops_secret_2024"
      ∷ "--conf"
      ∷ "spark.sql.shuffle.partitions=8"
      ∷ script job
      ∷ [])
    ++ extra_args

-- A function returns, or leaves the program with a code.
pub data Left : Type 0 where
  returned : Left
  exited : ℕ → Left

-- `subprocess.run` of a list of arguments.
module _ {W : Type 0} (run_args : List String → W → Completed × W) where
  unfoldable pub copy_src_to_container : W → Left × W
  copy_src_to_container w =
      let (result, w') = run_args copy_command w in
      (if succeeded result then returned else exited 1, w')

  unfoldable pub submit : Job → List String → W → Left × W
  unfolding submit_command
  submit job extra_args w =
      let (result, w') = run_args (submit_command job extra_args) w in
      (exited result.returncode, w')

  -- From the arguments that argparse gives.
  unfoldable pub main : Job → List String → W → Left × W
  unfolding copy_src_to_container submit
  main job extra w =
      let (copied, w') = copy_src_to_container w in
      elim copied [ exited code ↦ (exited code, w') | returned ↦ submit job extra w' ]

  -- Where the copy returns 0, the program leaves with the code of the submission, which is run in the
  -- state that the copy left; otherwise it leaves with 1 and has run the copy alone.
  pub exited-main :
      (job : Job) (extra : List String) (w : W)
      → let (copied, w1) = run_args copy_command w in
        let (job_result, w2) = run_args (submit_command job extra) w1 in
        (copied.returncode ≡ 0 → main job extra w ≡ (exited job_result.returncode, w2))
        × (copied.returncode ≢ 0 → main job extra w ≡ (exited 1, w1))
  unfolding main
  exited-main job extra w = (λ e. ground arith, λ e. ground arith)
