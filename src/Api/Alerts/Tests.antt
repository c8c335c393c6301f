-- ===== src/Api/Alerts/Tests.antt =====
-- Runs of the consumer loop on a validation over whole numbers.
use aiops_distributed_log.Prelude.{
  ℕ, ◌≡◌, refl, true, false, not, Option, none, some, List, [], ◌∷◌, String, Result, ok, err,
  length, nat_beq, ◌==◌, nat_eq, string_eq, if◌then◌else◌,
}
use aiops_distributed_log.Api.Json.{Json, null, num, str, obj, field, end}
use aiops_distributed_log.Api.Alerts.{Validation, Delivery, Gateway, handle_messages}
use aiops_distributed_log.Api.Alerts.Interface.{IsValidation}
use aiops_distributed_log.Api.Alerts.Messages.{alerts_of, stored_rows, alerts-handle_messages}
use aiops_distributed_log.Api.Alerts.Loop.{
  Session, create_failed, consumed, crashed, cancelled, exhausted,
}

abbrev text : Json ℕ → Result (Option String)
text null = ok none
text (str s) = ok (some s)
text _ = err "ValidationError"

abbrev number : Json ℕ → Result (Option ℕ)
number null = ok none
number (num n) = ok (some n)
number _ = err "ValidationError"

-- Two payloads that are JSON: an alert, and one whose component is a number.
abbrev pub toy : Validation
toy = record {
  Number = ℕ;
  is_zero = λ n. nat_beq n 0;
  loads = λ s.
      if s == "A"
      then some (obj (field "component" (str "RAS") (field "cluster_id" (num 1) end)))
      else if s == "B"
      then some (obj (field "component" (num 3) end))
      else none;
  text_field = text;
  float_field = number;
  int_field = number;
  model_dump_json = λ a. a.received_at;
}

toy-IsValidation : IsValidation toy
toy-IsValidation = record {
  text-null = refl;
  text-str = λ s. refl;
  float-null = refl;
  int-null = refl;
}

abbrev delivery : String → String → Result (Unit {0}) → Delivery
delivery raw' uuid' execute' = record {
  raw = raw';
  now = "12:00";
  uuid = uuid';
  execute = execute';
  send = λ ws. not (ws == 2);
}

-- The second alert's statement raises; the third message gives no alert.
abbrev deliveries : List Delivery
deliveries =
    delivery "A" "u1" (ok tt)
    ∷ delivery "A" "u2" (err "timeout")
    ∷ delivery "B" "u3" (ok tt)
    ∷ delivery "{" "u4" (ok tt)
    ∷ []

abbrev pub gateway : Gateway ℕ
gateway = record {
  has_pool = true;
  has_consumer = false;
  manager = record { connections = 1 ∷ 2 ∷ []; clients_active = 2; messages_sent = 0 };
  alerts_received = 5;
  alerts = [];
  payloads = [];
}

handled : length (handle_messages toy deliveries gateway).alerts ≡ 2
unfolding handle_messages
handled = refl

alerts-handle_messages_example :
    (handle_messages toy deliveries gateway).alerts ≡ stored_rows toy (alerts_of toy deliveries)
alerts-handle_messages_example =
    alerts-handle_messages toy deliveries gateway refl (refl, (refl, (refl, (refl, tt))))

-- The first consumer cannot be made, the second crashes, the third is cancelled.
abbrev pub sessions : List Session
sessions =
    create_failed
    ∷ consumed (delivery "A" "u1" (ok tt) ∷ []) crashed
    ∷ consumed (delivery "{" "u4" (ok tt) ∷ []) cancelled
    ∷ consumed (delivery "A" "u9" (ok tt) ∷ []) exhausted
    ∷ []
