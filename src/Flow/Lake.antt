-- ===== src/Flow/Lake.antt =====
-- What the streaming job of src/processing/stream_processor.py appends to the table `processed_logs` as
-- scripts/init_lakehouse.py creates it.
use aiops_distributed_log.Prelude.{
  ◌≡◌, refl, true, List, [], ◌∷◌, String, Option, none, some, map, filter, ◌==◌, string_eq, arith,
}
use aiops_distributed_log.Stream.{Processed}
use aiops_distributed_log.Scripts.Lakehouse.{Table, tables}
use aiops_distributed_log.Scripts.Lakehouse.Schemas.{
  Value, null, text, whole, real, instant, day, Row, conforms, columns, added,
  processed_logs_schema,
}

abbrev or_null {ℓ} : {A : Type ℓ} → (A → Value) → Option A → Value
or_null f none = null
or_null f (some a) = f a

-- The columns of the frame `processed`, in the order of its `select`, with the types that Spark gives
-- to their expressions.
abbrev pub processed_row : Processed → Row
processed_row r =
    ("event_id", text r.event_id)
    ∷ ("event_time", or_null instant r.event_time)
    ∷ ("host", or_null text r.host)
    ∷ ("component", text r.component)
    ∷ ("severity", or_null text r.severity)
    ∷ ("message", text r.message)
    ∷ ("log_date", or_null day r.log_date)
    ∷ ("cluster", whole r.cluster)
    ∷ ("is_anomaly", whole r.is_anomaly)
    ∷ ("anomaly_score", real r.anomaly_score)
    ∷ ("label_original", or_null whole r.label_original)
    ∷ ("ingested_at", or_null instant r.ingested_at)
    ∷ ("processed_at", instant r.processed_at)
    ∷ []

-- `_write_delta(processed, …, ["log_date"])`
abbrev pub partition_cols : List String
partition_cols = "log_date" ∷ []

-- Every row that the streaming job appends, whatever is null in its event, has for each column of the
-- table as it is created a value of the column's type, and none where the table has no nulls; the one
-- column that `mergeSchema` adds to the table is the label; and the columns to partition by are those
-- of the table.
pub processed-conforms :
    (r : Processed)
    → (conforms processed_logs_schema (processed_row r) ≡ true)
      × (added processed_logs_schema (columns (processed_row r)) ≡ "label_original" ∷ [])
      × (map (λ (t : Table). t.partition_col) (filter (λ t. t.name == "processed_logs") tables)
          ≡ partition_cols)
processed-conforms r = (ground arith, refl, refl)
