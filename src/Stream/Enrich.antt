-- ===== src/Stream/Enrich.antt =====
-- src/processing/stream_processor.py, `read_kafka_stream`: from Kafka values to events. Spark's
-- `from_json`, `to_timestamp` and `to_date` are parameters.
use aiops_distributed_log.Prelude.{
  ℕ, ◌≡◌, refl, Bool, true, false, List, [], ◌∷◌, String, Option, none, some, arith, All, length,
  count_if, Option-cases, inl, inr,
}
use aiops_distributed_log.Stream.{Event}

-- FLUENTD_SCHEMA, less the fields that the job drops.
pub record LogRecord : Type 0 where
  pub alert_code : Option String
  pub node_id : Option String
  pub timestamp : Option String
  pub component : Option String
  pub severity : Option String
  pub message : Option String
  pub is_anomaly : Option ℕ
  pub ingested_at : Option String

-- `F.coalesce(column, F.lit(default))`
abbrev pub coalesce : Option String → String → String
coalesce none default = default
coalesce (some s) default = s

abbrev pub bind {ℓ κ} : {A : Type ℓ} {B : Type κ} → Option A → (A → Option B) → Option B
bind none f = none
bind (some a) f = f a

pub record Parsers : Type 0 where
  -- `from_json(value, FLUENTD_SCHEMA)`; every field is null where the text does not parse
  pub from_json : String → LogRecord
  -- `to_timestamp` with the pattern of the log, and with that of `ingested_at`
  pub log_time : String → Option ℕ
  pub ingest_time : String → Option ℕ
  pub to_date : ℕ → ℕ

module _ (ps : Parsers) where
  open ps use {from_json, log_time, ingest_time, to_date}

  abbrev pub enrich_record : LogRecord → String → Event
  enrich_record r message' = record {
    alert_code = coalesce r.alert_code "-";
    event_time = bind r.timestamp log_time;
    host = r.node_id;
    component = coalesce r.component "UNKNOWN";
    severity = r.severity;
    message = message';
    label_original = r.is_anomaly;
    ingested_at = bind r.ingested_at ingest_time;
    log_date = bind (bind r.timestamp log_time) (λ t. some (to_date t));
  }

  abbrev pub enrich_value : String → Option Event
  enrich_value value =
      let r = from_json value in elim r.message [ none ↦ none | some m ↦ some (enrich_record r m) ]

  -- One micro-batch: the select and the filter on the message, value by value.
  unfoldable pub enrich : List String → List Event
  enrich [] = []
  enrich (value ∷ values) = elim (enrich_value value) [
    | none ↦ enrich values
    | some e ↦ e ∷ enrich values
  ]

  abbrev pub has_message : String → Bool
  has_message value = elim (from_json value).message [ none ↦ false | some m ↦ true ]

  -- The events of a date are those whose time could be read.
  abbrev pub IsDated : Event → Type 0
  IsDated e = e.log_date ≡ bind e.event_time (λ t. some (to_date t))

  -- Exactly the values without a message are dropped, and on every event the date is that of
  -- its time: one is null exactly where the other is.
  pub enrich_lem :
      (values : List String)
      → (length (enrich values) ≡ count_if has_message values) × All IsDated (enrich values)
  unfolding enrich
  enrich_lem [] = (refl, tt)
  enrich_lem (value ∷ values) = elim (Option-cases (from_json value).message) [
    | inl e ↦ ground (arith, enrich_lem values)
    | inr (m, e) ↦ ground (arith, enrich_lem values)
  ]
