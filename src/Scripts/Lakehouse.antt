-- ===== src/Scripts/Lakehouse.antt =====
-- scripts/init_lakehouse.py: the Delta tables are created where they are missing. `T` is what a
-- table holds; a table is known by its path.
pub mod Schemas
use aiops_distributed_log.Prelude.{
  ◌≡◌, Bool, true, false, List, [], ◌∷◌, ◌++◌, String, Option, none, some, Result, ok, err, ℕ,
  is_empty, if◌then◌else◌, ◌==◌, string_eq, ==_iff, arith,
}

-- A row of TABLES: the name, the path, the partition column.
pub record Table : Type 0 where
  pub name : String
  pub path : String
  pub partition_col : String

abbrev table : String → String → String → Table
table name' path' col = record { name = name'; path = path'; partition_col = col }

abbrev pub tables : List Table
tables =
    table "raw_logs" "s3a://telemetry-lakehouse/raw_logs" "timestamp"
    ∷ table "processed_logs" "s3a://telemetry-lakehouse/processed_logs" "log_date"
    ∷ table "anomaly_alerts" "s3a://telemetry-lakehouse/anomaly_alerts" "triggered_at"
    ∷ []

-- Whether the three calls of Delta Lake for a table return.
pub record Answers : Type 0 where
  pub is_delta_table : Result (Unit {0})
  pub save : Result (Unit {0})
  pub history : Result (Unit {0})

module _ {T : Type 0} (empty : Table → T) (answers : String → Answers) where
  -- The table at a path.
  abbrev pub find : String → List (String × T) → Option T
  find path' [] = none
  find path' ((p, t) ∷ lake) = if p == path' then some t else find path' lake

  abbrev pub is_table : String → List (String × T) → Bool
  is_table path' lake = elim (find path' lake) [ some t ↦ true | none ↦ false ]

  unfoldable pub create_table : Table → List (String × T) → Result (Unit {0}) × List (String × T)
  create_table t lake = elim (answers t.name).is_delta_table [
    | err e ↦ (err e, lake)
    | ok _ ↦ if is_table t.path lake then (ok tt, lake) else elim (answers t.name).save [
      | ok _ ↦ (ok tt, lake ++ (t.path, empty t) ∷ [])
      | err e ↦ (err e, lake)
    ]
  ]

  unfoldable pub verify_table : Table → List (String × T) → Result (Unit {0})
  verify_table t lake =
      if is_table t.path lake then (answers t.name).history else err "AnalysisException"

  -- One round of the loop: an exception puts the name among the errors.
  unfoldable pub init_table : Table → List (String × T) → Bool × List (String × T)
  unfolding create_table verify_table
  init_table t lake =
      let (result, lake') = create_table t lake in
      (
        elim result [
          | err e ↦ false
          | ok _ ↦ elim (verify_table t lake') [ ok _ ↦ true | err e ↦ false ]
        ],
        lake',
      )

  unfoldable pub init_tables : List Table → List (String × T) → List String × List (String × T)
  unfolding init_table
  init_tables [] lake = ([], lake)
  init_tables (t ∷ ts) lake =
      let (went, lake1) = init_table t lake in
      let (errors, lake2) = init_tables ts lake1 in
      (if went then errors else t.name ∷ errors, lake2)

  -- The exit code, once there is a Spark session.
  unfoldable pub main : List (String × T) → ℕ × List (String × T)
  unfolding init_tables
  main lake =
      let (errors, lake') = init_tables tables lake in (if is_empty errors then 0 else 1, lake')

  find-last :
      (path' : String) (lake : List (String × T)) (t : T)
      → find path' lake ≡ none
      → find path' (lake ++ (path', t) ∷ []) ≡ some t
  find-last path' [] t h = ground (arith, ==_iff path' path')
  find-last path' ((p, u) ∷ lake) t h = ground (arith, find-last path' lake t)
