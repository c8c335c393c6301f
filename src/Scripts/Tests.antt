-- ===== src/Scripts/Tests.antt =====
-- Runs of the programs.
use aiops_distributed_log.Prelude.{
  ℕ, ◌≡◌, ◌*◌, ◌++◌, ◌&&◌, not, Bool, pos, refl, true, false, length, Option, none, List, [], ◌∷◌,
  String, some, Result, ok, err, all, contains, if◌then◌else◌, ◌==◌, string_eq, nat_eq, ltb, arith,
}
use aiops_distributed_log.Chaos.Host.{Completed}
use aiops_distributed_log.Chaos.Scripted.{Machine, machine, machine-IsHost, done, failed}
use aiops_distributed_log.Scripts.Submit
use aiops_distributed_log.Scripts.HealthCheck.{Probes}
use aiops_distributed_log.Scripts.Topics
use aiops_distributed_log.Scripts.Topics.{
  Admin, Topic, topics, accepted, topics_lem, no_brokers, reachable, already_exists,
}
use aiops_distributed_log.Scripts.Audit
use aiops_distributed_log.Scripts.Replay.{Target, load_dataset}
use aiops_distributed_log.Postgres.Scripted.{scripted, scripted-IsPsycopg}
use aiops_distributed_log.Postgres.Caught.{AgreesWith}
use aiops_distributed_log.Tables.Rows.{insert_alert}
use aiops_distributed_log.Api.Json.{Json, null, num, str, obj, field, end}
use aiops_distributed_log.Scripts.AlertImport.{
  Values, statement_of, statements, import_alerts, import_alerts_lem,
}
use aiops_distributed_log.Scripts.GenerateLogs.{
  Draws, Entry, generate_logs, label, fill, lit, hole, label_in,
}
use aiops_distributed_log.Scripts.GenerateLogs.Counts.{Counted, generate_logs_lem}
use aiops_distributed_log.Scripts.Lakehouse
use aiops_distributed_log.Scripts.Lakehouse.{Answers}

abbrev at_start : Machine
at_start = record { time = 0; script = [] }

-- Every service answers from the tenth second on.
abbrev probes : Probes Machine
probes = record {
  connect_tcp = λ url m. (if ltb m.time 10 then err "ConnectionRefusedError" else ok tt, m);
  open_status = λ url m. (ok 200, m);
}

-- The broker is there from the tenth second on, and has both topics already.
abbrev admin : Admin Machine
admin = record {
  connect = λ m. (if ltb m.time 10 then no_brokers else reachable, m);
  create = λ ts m. (already_exists, m);
  list_topics = λ m. ("system-logs" ∷ "critical-alerts" ∷ [], m);
}

topics_lem_example :
    (answer : Result ℕ) × (Topics.main machine admin 61 60 at_start ≡ some answer)
    × (answer ≡ ok 0
        → (v : Machine) × (accepted (admin.create topics v).0 ≡ true)
          × (all
                (λ (t : Topic). contains (admin.list_topics (admin.create topics v).1).0 t.name)
                topics
              ≡ true))
topics_lem_example = topics_lem machine admin machine-IsHost (λ w. omega arith) 60 at_start

-- A network in which only the log generator is cut off.
abbrev probe : String → String → ℕ → Result String
probe source target port = if source == "log-generator" then err "TimeoutExpired" else ok "OK"

-- The one rule that it breaks makes the program fail.
audit_run : Audit.main probe ≡ 1
unfolding Audit.main
audit_run = refl

load_run : load_dataset ("a\n" ∷ "  \n" ∷ "b" ∷ []) ≡ "a" ∷ "b" ∷ []
unfolding load_dataset
load_run = refl

abbrev dataset : List String
dataset = "1" ∷ "2" ∷ "3" ∷ "4" ∷ "5" ∷ "6" ∷ "7" ∷ "8" ∷ "9" ∷ "10" ∷ "11" ∷ "12" ∷ []

abbrev target : Target
target = record { file = "0" ∷ []; total_written = 0 }

-- The second table cannot be written.
abbrev answers : String → Answers
answers name = record {
  is_delta_table = ok tt;
  save = if name == "processed_logs" then err "S3Exception" else ok tt;
  history = ok tt;
}

abbrev lake : List (String × ℕ)
lake = ("s3a://telemetry-lakehouse/raw_logs", 7) ∷ []

abbrev number : Json ℕ → Result ℕ
number (num n) = ok n
number _ = err "ValueError"

abbrev adapted : Json ℕ → Result (Option String)
adapted null = ok none
adapted (str s) = ok (some s)
adapted _ = err "can't adapt"

-- Three texts that are JSON: two alerts, and one whose score is no number.
abbrev values : Values
values = record {
  Number = ℕ;
  loads = λ s.
      if s == "{A"
      then ok (obj (field "component" (str "RAS") (field "cluster_id" (num 1) end)))
      else if s == "{B"
      then ok (obj (field "component" (str "KERNEL") end))
      else if s == "{C"
      then ok (obj (field "anomaly_score" (str "high") end))
      else err "JSONDecodeError";
  float = number;
  int = number;
  adapt = adapted;
}

abbrev lines : List (String × String)
lines =
    ("u1", "{A\n")
    ∷ ("u2", "\n")
    ∷ ("u3", "{C\n")
    ∷ ("u4", "A\n")
    ∷ ("u5", "{\n")
    ∷ ("u6", " {B\n")
    ∷ []

both_read : length (statements values lines) ≡ 2
unfolding statement_of
both_read = refl

both_stored : (import_alerts values (scripted []) (ok lines) []).0 ≡ some 2
unfolding import_alerts
both_stored = refl

-- The server refuses the second statement: a count of one is printed, and the table stays empty.
one_counted : import_alerts values (scripted (true ∷ false ∷ [])) (ok lines) [] ≡ (some 1, [])
unfolding import_alerts
one_counted = refl

import_alerts_lem_example :
    AgreesWith
      (scripted (true ∷ false ∷ []))
      insert_alert
      (statements values lines)
      []
      (import_alerts values (scripted (true ∷ false ∷ [])) (ok lines) [])
import_alerts_lem_example =
    import_alerts_lem values (scripted (true ∷ false ∷ [])) (scripted-IsPsycopg (true ∷ false ∷ []))
      lines []

service_down :
    label
      (fill (λ name. "cart-service") (lit "Service " ∷ hole "service" ∷ lit " is UNHEALTHY" ∷ []))
    ≡ "service_down"
unfolding fill label_in
service_down = refl

-- In a burst an entry is anomalous if the number drawn is below 65; the fourth message is drawn.
abbrev draws : ℕ → Draws ℕ
draws i = record {
  service = i;
  random = 40 * i;
  level = 1;
  template = 4;
  values = λ name. "3";
  host = "2";
  trace = "0186a0";
  span = "02710";
  latency_up_to = λ n. n;
}

generate_logs_lem_example :
    (out : List Entry × (ℕ × ℕ)) × (generate_logs ltb draws
        (λ i. "2026-01-01T00:00:00Z")
        65
        15
        (pos 3)
      ≡ (some out.0, ok out.1))
    × Counted ltb 3 out
generate_logs_lem_example = generate_logs_lem ltb draws (λ i. "2026-01-01T00:00:00Z") 65 15 2

two_anomalies : (generate_logs ltb draws (λ i. "") 65 15 (pos 3)).1 ≡ ok (3, 2)
unfolding generate_logs
two_anomalies = refl

-- A shell that writes down what it runs; nothing can be copied into a container that is down.
abbrev noted : Bool → List String → List String → Completed × List String
noted up args log = (if contains args "cp" && not up then failed else done "", args ++ log)

submit_run : Submit.main (noted true) Submit.train_model ("--source" ∷ "csv" ∷ []) [] ≡ (
  Submit.exited 0,
  Submit.submit_command Submit.train_model ("--source" ∷ "csv" ∷ []) ++ Submit.copy_command,
)
unfolding Submit.main
submit_run = refl

no_submit_run :
    Submit.main (noted false) Submit.stream_processor [] [] ≡ (Submit.exited 1, Submit.copy_command)
unfolding Submit.main
no_submit_run = refl
