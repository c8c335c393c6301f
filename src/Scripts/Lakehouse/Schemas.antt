-- ===== src/Scripts/Lakehouse/Schemas.antt =====
-- scripts/init_lakehouse.py: the schemas of the Delta tables, and rows of Spark values against them.
use aiops_distributed_log.Prelude.{
  ℕ, Bool, true, false, List, [], ◌∷◌, String, Option, none, some, map, all, contains, ◌==◌,
  string_eq, if◌then◌else◌,
}

-- Spark's types, as far as the schemas and the streaming job use them.
pub data SparkType : Type 0 where
  string int double timestamp boolean date : SparkType

pub record StructField : Type 0 where
  pub name : String
  pub type : SparkType
  pub nullable : Bool

abbrev field : String → SparkType → Bool → StructField
field name' type' nullable' = record { name = name'; type = type'; nullable = nullable' }

abbrev pub raw_logs_schema : List StructField
raw_logs_schema =
    field "event_id" string false
    ∷ field "timestamp" timestamp false
    ∷ field "service" string true
    ∷ field "level" string true
    ∷ field "message" string true
    ∷ field "host" string true
    ∷ field "trace_id" string true
    ∷ field "span_id" string true
    ∷ field "latency_ms" int true
    ∷ field "is_anomaly" int true
    ∷ field "failure_type" string true
    ∷ field "env" string true
    ∷ field "ingested_at" timestamp true
    ∷ []

abbrev pub processed_logs_schema : List StructField
processed_logs_schema =
    field "event_id" string false
    ∷ field "event_time" timestamp true
    ∷ field "host" string true
    ∷ field "component" string true
    ∷ field "severity" string true
    ∷ field "message" string true
    ∷ field "log_date" date true
    ∷ field "cluster" int true
    ∷ field "is_anomaly" int true
    ∷ field "anomaly_score" double true
    ∷ field "ingested_at" timestamp true
    ∷ field "processed_at" timestamp true
    ∷ []

abbrev pub anomaly_alerts_schema : List StructField
anomaly_alerts_schema =
    field "alert_id" string false
    ∷ field "event_id" string true
    ∷ field "timestamp" timestamp false
    ∷ field "service" string true
    ∷ field "anomaly_score" double true
    ∷ field "predicted_label" string true
    ∷ field "confidence" double true
    ∷ field "model_version" string true
    ∷ field "alert_severity" string true
    ∷ field "triggered_at" timestamp true
    ∷ field "acknowledged" boolean true
    ∷ []

-- A value of a data frame. Times and dates are numbers.
pub data Value : Type 0 where
  null : Value
  text : String → Value
  whole real instant day : ℕ → Value
  truth : Bool → Value

abbrev pub has_type : SparkType → Value → Bool
has_type string (text s) = true
has_type int (whole n) = true
has_type double (real x) = true
has_type timestamp (instant t) = true
has_type boolean (truth b) = true
has_type date (day d) = true
has_type _ _ = false

abbrev pub fits : StructField → Value → Bool
fits f null = f.nullable
fits f v = has_type f.type v

-- A row has a value for each of its columns.
abbrev pub Row : Type 0
Row = List (String × Value)

abbrev pub value_of : String → Row → Option Value
value_of column [] = none
value_of column ((c, v) ∷ row) = if c == column then some v else value_of column row

-- Every column of the table is in the row, with a value of its type, and no null where the table has
-- none.
abbrev pub conforms : List StructField → Row → Bool
conforms schema row =
    all (λ f. elim (value_of f.name row) [ none ↦ false | some v ↦ fits f v ]) schema

abbrev pub columns : Row → List String
columns = map (λ (c : String × Value). c.0)

-- The columns of a row that the table does not have, which `mergeSchema` adds to it.
abbrev pub added : List StructField → List String → List String
added schema [] = []
added schema (c ∷ cs) =
    if contains (map (λ (f : StructField). f.name) schema) c
    then added schema cs
    else c ∷ added schema cs
