-- ===== src/Api/Demo/Tests.antt =====
-- Runs of the demo page.
use aiops_distributed_log.Prelude.{
  ℕ, ◌≡◌, refl, [], ◌∷◌, none, some, nat_beq, ◌==◌, string_eq, arith, if◌then◌else◌,
}
use aiops_distributed_log.Api.Json.{null, num, str, obj, field, end}
use aiops_distributed_log.Api.Alerts.{AlertEvent}
use aiops_distributed_log.Api.Alerts.Tests.{toy}
use aiops_distributed_log.Api.Demo.{
  blank, notice, alert_row, live, Page, loaded, trim, append_row, Browser, on_message, substring,
  on_open, on_close, opens, receives, closes, Reach, here, next,
}
use aiops_distributed_log.Api.Demo.Life.{Reach-live}
use aiops_distributed_log.Api.Demo.Shown.{receive_all}

-- An alert as `toy` prints it, the greeting, an alert without texts, and two values that no alert is.
abbrev pub browser : Browser ℕ
browser = record {
  is_zero = λ n. nat_beq n 0;
  parse = λ s.
      if s == "12:00"
      then some (
          obj (
            field "timestamp" null (
              field "component" (str "RAS") (
                field "severity" (str "fatal") (
                  field "message" (str "parity error") (
                    field "host" null (
                      field "anomaly_score" null
                        (field "cluster_id" (num 3) (field "received_at" (str "12:00") end)))))))))
      else if s == "hello"
      then some (obj (field "type" (str "connected") (field "message" (str "active") end)))
      else if s == "{}"
      then some (obj end)
      else if s == "null"
      then some null
      else if s == "7"
      then some (obj (field "severity" (num 7) end))
      else none;
  to_upper = λ s. if s == "fatal" then "FATAL" else s;
  show = λ j. elim j [ str s ↦ s | _ ↦ "?" ];
}

abbrev alert : AlertEvent ℕ
alert = record {
  timestamp = none;
  component = some "RAS";
  severity = some "fatal";
  message = some "parity error";
  host = none;
  anomaly_score = none;
  cluster_id = some 3;
  received_at = "12:00";
}

shown_run :
    (receive_all toy browser ("hello" ∷ "12:00" ∷ "null" ∷ "7" ∷ "x" ∷ []) loaded).feed
    ≡ alert_row "fatal" "12:00" "RAS" "FATAL" "parity error"
      ∷ notice "active"
      ∷ blank
      ∷ notice "Connecting to alert stream…"
      ∷ blank
      ∷ []
unfolding receive_all on_message append_row trim substring
shown_run = refl

-- The message whose severity is a number is counted before its handler raises.
counted_run :
    (receive_all toy browser ("hello" ∷ "12:00" ∷ "null" ∷ "7" ∷ "x" ∷ []) loaded).total ≡ 2
unfolding receive_all on_message append_row trim substring
counted_run = refl

abbrev opened_page : Page
opened_page = on_open browser "9:00" (record loaded { connecting = 0; opened = 1 })

abbrev lost_page : Page
lost_page = on_close browser (record (on_message browser "7" opened_page) { opened = 0 })

lost : Reach browser loaded lost_page
unfolding on_open on_message on_close append_row trim
lost =
    next
      (next (next here (opens loaded "9:00" (omega arith)))
        (receives opened_page "7" (omega arith)))
      (closes (on_message browser "7" opened_page) (omega arith))

Reach-live_example : (q : Page) × Reach browser lost_page q × (q.badge ≡ live)
Reach-live_example = Reach-live browser lost
