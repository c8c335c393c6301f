-- ===== src/Scripts/GenerateLogs.antt =====
-- scripts/generate_logs.py: synthetic logs, with bursts of anomalies. What `random` draws is an
-- argument.
pub mod Labels
pub mod Counts
use Prim.Native.String.{◌++◌ as ◌⧺◌}
use Prim.Native.Nat.{◌%◌}
use aiops_distributed_log.Prelude.{
  ℕ, zero, suc, ◌+◌, Bool, ℤ, pos, negsuc, Option, none, some, List, [], ◌∷◌, ◌++◌, String, Result,
  ok, err, ltb, nat_beq, if◌then◌else◌,
}
use aiops_distributed_log.Chaos.Text.{is_in}

-- The parts of a template: a text, and a field in braces. In the messages below a keyword of
-- `FAILURE_LABELS` is a part of its own.
pub data Piece : Type 0 where
  lit : String → Piece
  hole : String → Piece

-- `template.format(…)`
unfoldable pub fill : (String → String) → List Piece → String
fill values [] = ""
fill values (lit s ∷ ps) = s ⧺ fill values ps
fill values (hole name ∷ ps) = values name ⧺ fill values ps

abbrev pub first_anomaly_message : List Piece
first_anomaly_message = lit "Connection timeout after" ∷ lit " " ∷ hole "ms" ∷ lit "ms" ∷ []

abbrev pub other_anomaly_messages : List (List Piece)
other_anomaly_messages =
    (lit "Circuit breaker OPEN" ∷ lit " for downstream " ∷ hole "service" ∷ [])
    ∷ (lit "Out of memory" ∷ lit ": heap space exhausted" ∷ [])
    ∷ (lit "Database connection pool exhausted" ∷ [])
    ∷ (lit "Retry attempt" ∷ lit " " ∷ hole "n" ∷ lit "/3 failed" ∷ [])
    ∷ (lit "Null pointer exception" ∷ lit " in " ∷ hole "component" ∷ [])
    ∷ (lit "Disk I/O latency spike" ∷ lit ": " ∷ hole "ms" ∷ lit "ms" ∷ [])
    ∷ (lit "CPU throttling" ∷ lit " detected on node " ∷ hole "node" ∷ [])
    ∷ (lit "Kafka consumer lag" ∷ lit " exceeded threshold: " ∷ hole "lag" ∷ [])
    ∷ (lit "SSL certificate" ∷ lit " validation failed" ∷ [])
    ∷ (lit "Service "
        ∷ hole "service"
        ∷ lit " is "
        ∷ lit "UNHEALTHY"
        ∷ lit " — removing from load balancer"
        ∷ [])
    ∷ (lit "Deadlock" ∷ lit " detected in transaction " ∷ hole "txn_id" ∷ [])
    ∷ []

abbrev pub failure_labels : List (String × String)
failure_labels =
    ("Connection timeout after", "network_timeout")
    ∷ ("Circuit breaker OPEN", "circuit_breaker")
    ∷ ("Out of memory", "oom")
    ∷ ("Database connection pool exhausted", "db_exhaustion")
    ∷ ("Retry attempt", "retry_failure")
    ∷ ("Null pointer exception", "npe")
    ∷ ("Disk I/O latency spike", "io_spike")
    ∷ ("CPU throttling", "cpu_throttle")
    ∷ ("Kafka consumer lag", "kafka_lag")
    ∷ ("SSL certificate", "ssl_error")
    ∷ ("UNHEALTHY", "service_down")
    ∷ ("Deadlock", "deadlock")
    ∷ []

-- The loop of `_label`.
unfoldable pub label_in : List (String × String) → String → String
label_in [] msg = "normal"
label_in ((keyword, l) ∷ ls) msg = if is_in keyword msg then l else label_in ls msg

abbrev pub label : String → String
label = label_in failure_labels

-- `random.choice` of a list that is not empty; a number past its end stands for its last element.
unfoldable pub pick {ℓ} : {A : Type ℓ} → ℕ → A → List A → A
pick n a [] = a
pick zero a (b ∷ rest) = a
pick (suc n) a (b ∷ rest) = pick n b rest

abbrev pub first_service : String
first_service = "auth-service"

abbrev pub other_services : List String
other_services =
    "order-service" ∷ "payment-service" ∷ "inventory-service" ∷ "notification-service"
    ∷ "gateway-service" ∷ "user-service" ∷ "recommendation-engine" ∷ "search-service"
    ∷ "cart-service" ∷ []

abbrev pub other_log_levels : List String
other_log_levels = "INFO" ∷ "INFO" ∷ "INFO" ∷ "WARN" ∷ "WARN" ∷ "ERROR" ∷ "ERROR" ∷ "CRITICAL" ∷ []

abbrev pub first_normal_message : List Piece
first_normal_message = lit "Request processed successfully" ∷ []

abbrev pub other_normal_messages : List (List Piece)
other_normal_messages =
    (lit "Cache hit for key " ∷ hole "key" ∷ [])
    ∷ (lit "Database query executed in " ∷ hole "ms" ∷ lit "ms" ∷ [])
    ∷ (lit "Health check passed" ∷ [])
    ∷ (lit "User " ∷ hole "user_id" ∷ lit " authenticated" ∷ [])
    ∷ (lit "Event published to topic " ∷ hole "topic" ∷ [])
    ∷ (lit "Connection pool acquired" ∷ [])
    ∷ (lit "Scheduled job completed" ∷ [])
    ∷ (lit "Config refreshed from remote" ∷ [])
    ∷ (lit "Metrics flushed to Prometheus" ∷ [])
    ∷ []

-- What is drawn for one entry: numbers for the choices, `random.random()`, the values of `_fill`,
-- and the drawn parts of the other fields, the latency up to a bound.
pub record Draws (F : Type 0) : Type 0 where
  pub service : ℕ
  pub random : F
  pub level : ℕ
  pub template : ℕ
  pub values : String → String
  pub host : String
  pub trace : String
  pub span : String
  pub latency_up_to : ℕ → ℕ

pub record Entry : Type 0 where
  pub timestamp : String
  pub service : String
  pub level : String
  pub message : String
  pub host : String
  pub trace_id : String
  pub span_id : String
  pub latency_ms : ℕ
  pub is_anomaly : ℕ
  pub failure_type : String
  pub env : String

module _ {F : Type 0} (below : F → F → Bool) where
  unfoldable pub generate_log_entry : Draws F → String → F → Entry
  unfolding pick fill label_in
  generate_log_entry d timestamp' anomaly_prob =
      let service' = pick d.service first_service other_services in
      let anomaly = below d.random anomaly_prob in
      let message' =
        if anomaly
        then fill d.values (pick d.template first_anomaly_message other_anomaly_messages)
        else fill d.values (pick d.template first_normal_message other_normal_messages) in
      record {
        timestamp = timestamp';
        service = service';
        level =
            if anomaly
            then pick d.level "WARN" ("ERROR" ∷ "CRITICAL" ∷ [])
            else pick d.level "DEBUG" other_log_levels;
        message = message';
        host = "pod-" ⧺ service' ⧺ "-" ⧺ d.host;
        trace_id = "trace-" ⧺ d.trace;
        span_id = "span-" ⧺ d.span;
        latency_ms = if anomaly then d.latency_up_to 5000 else d.latency_up_to 200;
        is_anomaly = if anomaly then 1 else 0;
        failure_type = label message';
        env = "production";
      }

  module _ (draws : ℕ → Draws F) (stamp : ℕ → String) (burst_prob anomaly_prob : F) where
    -- The loop from `i` on: the file, `written` and `anomalies`.
    unfoldable pub write_entries : ℕ → ℕ → List Entry × (ℕ × ℕ) → List Entry × (ℕ × ℕ)
    unfolding generate_log_entry
    write_entries zero i out = out
    write_entries (suc n) i (file, (written, anomalies)) =
        let prob = if ltb (i % 5000) 200 then burst_prob else anomaly_prob in
        let entry = generate_log_entry (draws i) (stamp i) prob in
        write_entries n (i + 1) (file ++ entry ∷ [], (written + 1, anomalies + entry.is_anomaly))

    -- `main`: the interval of a count of 0 raises before the file is opened, the share of anomalies
    -- of a negative count after the loop, which does nothing.
    unfoldable pub generate_logs : ℤ → Option (List Entry) × Result (ℕ × ℕ)
    unfolding write_entries
    generate_logs (pos zero) = (none, err "ZeroDivisionError")
    generate_logs (pos (suc n)) =
        let (file, counts) = write_entries (suc n) 0 ([], (0, 0)) in (some file, ok counts)
    generate_logs (negsuc n) = (some [], err "ZeroDivisionError")
