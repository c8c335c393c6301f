-- ===== src/Api/Alerts/Interface.antt =====
-- `AlertEvent`, and what src/api/main.py uses of pydantic and of the module `json`.
use aiops_distributed_log.Prelude.{Bool, Option, none, some, String, Result, ok, ◌≡◌}
use aiops_distributed_log.Api.Json.{Json, null, str}

pub record AlertEvent (N : Type 0) : Type 0 where
  pub timestamp : Option String
  pub component : Option String
  pub severity : Option String
  pub message : Option String
  pub host : Option String
  pub anomaly_score : Option N
  pub cluster_id : Option N
  pub received_at : String

pub record Validation : Type 1 where
  pub Number : Type 0
  -- whether a number is false as a condition
  pub is_zero : Number → Bool
  -- `json.loads`; `none` is a `JSONDecodeError`
  pub loads : String → Option (Json Number)
  -- the validation of a field `Optional[str]`, `Optional[float]`, `Optional[int]`
  pub text_field : Json Number → Result (Option String)
  pub float_field : Json Number → Result (Option Number)
  pub int_field : Json Number → Result (Option Number)
  pub model_dump_json : AlertEvent Number → String

-- What pydantic documents: an optional field takes `None`, and a text field takes a text.
pub record IsValidation (v : Validation) : Type 0 where
  pub text-null : v.text_field null ≡ ok none
  pub text-str : (s : String) → v.text_field (str s) ≡ ok (some s)
  pub float-null : v.float_field null ≡ ok none
  pub int-null : v.int_field null ≡ ok none
