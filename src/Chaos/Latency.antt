-- ===== src/Chaos/Latency.antt =====
-- chaos/scenarios/latency_probe.py: a probe has to arrive in Kafka, and an alert at a client.
pub mod Verdict
pub mod Anything
pub mod Tests
use Prim.Native.String.{◌++◌ as ◌+++◌}
use aiops_distributed_log.Prelude.{
  ℕ, zero, suc, ◌+◌, ◌-◌, ◌*◌, Bool, true, false, ◌&&◌, ◌∷◌, [], List, String, Option, none, some,
  Result, ok, err, ltb, if◌then◌else◌,
}
use aiops_distributed_log.Chaos.Host.{Host, Completed, succeeded, Report, report}
use aiops_distributed_log.Chaos.Text.{is_in}

abbrev pub kafka_scan_timeout : ℕ
kafka_scan_timeout = 90

abbrev pub websocket_timeout : ℕ
websocket_timeout = 30

abbrev pub target_latency_ms : ℕ
target_latency_ms = 5000

abbrev pub alerts_url : String
alerts_url = "http://localhost:8000/api/v1/alerts/recent?limit=5"

-- What the Kafka consumer hands over, each message with the time at which it is looked at, up to its
-- timeout or an exception.
pub data Messages : Type 0 where
  message : String → ℕ → Messages → Messages
  ended : Messages
  raised : String → Messages

-- What `asyncio.wait_for(ws.recv(), …)` does.
pub data Received : Type 0 where
  text : String → Received
  timed_out : Received
  failed : String → Received

-- kafka-python, websockets and the file system of the host.
pub record Clients (W : Type 0) : Type 0 where
  -- whether `from kafka import KafkaConsumer` goes through
  pub has_kafka : Bool
  pub consume : ℕ → W → Messages × W
  -- whether `import websockets` goes through, and what opening the socket and a receive do
  pub has_websockets : Bool
  pub ws_connect : W → Result (Unit {0}) × W
  pub ws_recv : ℕ → W → Received × W
  -- the fallback that appends the line to `logs/system.log`
  pub append_host_log : String → W → W
  -- the commands that append the line and that publish the alert, for a probe
  pub log_command : String → W → String
  pub publish_command : String → W → String
  -- the number of alerts in a response, or what `json.loads` raises
  pub count_alerts : String → Result ℕ

-- `if t:` of an optional time
abbrev pub as_found : Option ℕ → Option ℕ
as_found none = none
as_found (some zero) = none
as_found (some (suc t)) = some (suc t)

abbrev pub is_found : Option ℕ → Bool
is_found t = elim (as_found t) [ some t' ↦ true | none ↦ false ]

-- The loop over the consumer.
unfoldable pub scan_messages : String → ℕ → Messages → Result (Option ℕ)
scan_messages probe_id deadline ended = ok none
scan_messages probe_id deadline (raised e) = err e
scan_messages probe_id deadline (message value t rest) =
    if is_in probe_id value
    then ok (some t)
    else if ltb deadline t
    then ok none
    else scan_messages probe_id deadline rest

abbrev pub check_names : Bool → Bool → Bool → Bool → List (String × Bool)
check_names found delivered within rest =
    ("probe_injected_to_log", true)
    ∷ ("probe_found_in_kafka", found)
    ∷ ("kafka_probe_published_to_alerts", true)
    ∷ ("websocket_delivered_message", delivered)
    ∷ ("websocket_latency_within_target", within)
    ∷ ("fastapi_rest_returns_alerts", rest)
    ∷ []

pub record Outcome : Type 0 where
  pub result : Report
  -- none is "timeout"
  pub fluentd_to_kafka_ms : Option ℕ
  pub kafka_to_websocket_ms : Option ℕ
  pub total_e2e_ms : Option ℕ

abbrev both : Option ℕ → Option ℕ → Option ℕ
both (some a) (some b) = some (a + b)
both (some a) none = none
both none b = none

-- `round((t - start) * 1000, 1)` of whole seconds
abbrev pub latency : ℕ → Option ℕ → Option ℕ
latency start t = elim (as_found t) [ some t' ↦ some ((t' - start) * 1000) | none ↦ none ]

module _ {W : Type 0} (h : Host W) (c : Clients W) where
  open h use {now, sleep, run_cmd, get_url}
  open c use {
    has_kafka, consume, has_websockets, ws_connect, ws_recv, append_host_log, log_command,
    publish_command, count_alerts,
  }

  unfoldable pub inject_probe_log : String → W → ℕ × W
  inject_probe_log probe_id w =
      let (result, w') = run_cmd (log_command probe_id w) w in
      (now w', if succeeded result then w' else append_host_log probe_id w')

  unfoldable pub inject_probe_kafka : String → W → ℕ × W
  inject_probe_kafka probe_id w =
      let (result, w') = run_cmd (publish_command probe_id w) w in (now w', w')

  unfoldable pub scan_kafka_docker : String → W → Option ℕ × W
  scan_kafka_docker probe_id w =
      let (result, w') =
        run_cmd
          "docker exec kafka-1 kafka-console-consumer --bootstrap-server kafka-1:29092 --topic system-logs --from-beginning --timeout-ms 90000"
          w in
      (if is_in probe_id result.stdout then some (now w') else none, w')

  -- An exception of the consumer leaves the function.
  unfoldable pub scan_kafka_for_probe : String → W → Result (Option ℕ) × W
  unfolding scan_messages scan_kafka_docker
  scan_kafka_for_probe probe_id w =
      let deadline = now w + kafka_scan_timeout in
      let (messages, w') = consume kafka_scan_timeout w in
      if has_kafka
      then (scan_messages probe_id deadline messages, w')
      else let (found, v) = scan_kafka_docker probe_id w in (ok found, v)

  -- Any message will do; what is raised is logged.
  unfoldable pub wait_for_websocket_message : ℕ → W → Option ℕ × W
  wait_for_websocket_message timeout w =
      let (connected, w') = ws_connect w in
      let (received, w2) = ws_recv timeout w' in
      if has_websockets
      then elim connected [
        | err e ↦ (none, w')
        | ok _ ↦ elim received [
          | text msg ↦ (some (now w2), w2)
          | timed_out ↦ (none, w2)
          | failed e ↦ (none, w2)
        ]
      ]
      else (none, w)

  -- One attempt: an exception is logged.
  unfoldable pub attempt : W → Bool × W
  attempt w =
      let (response, w') = get_url alerts_url w in
      (
        elim response [
          | err e ↦ false
          | ok body ↦ elim (count_alerts body) [ ok n ↦ ltb 0 n | err e ↦ false ]
        ],
        w',
      )

  -- The attempts that are left; there is no sleep after the last.
  unfoldable pub attempts : ℕ → W → Bool × W
  unfolding attempt
  attempts zero w = (false, w)
  attempts (suc left) w =
      let (answered, w') = attempt w in
      let later = attempts left (elim left [ zero ↦ w' | suc n ↦ sleep 2 w' ]) in
      if answered then (true, w') else later

  unfoldable pub check_fastapi_alerts : W → Bool × W
  unfolding attempts
  check_fastapi_alerts w = attempts 3 w

  -- Step 4 behind the wait: the two checks of the WebSocket.
  unfoldable pub judge_websocket : ℕ → Option ℕ → W → (Bool × Bool) × W
  unfolding check_fastapi_alerts
  judge_websocket t_inject t_ws w =
      let (rest_ok, w') = check_fastapi_alerts w in
      elim (latency t_inject t_ws) [
        | some ms ↦ ((true, ltb ms target_latency_ms), w)
        | none ↦ ((rest_ok, rest_ok), w')
      ]

  -- From the publication of the second probe on.
  unfoldable pub measure : String → ℕ → Option ℕ → W → Outcome × W
  unfolding inject_probe_kafka judge_websocket wait_for_websocket_message
  measure probe_id t_inject t_kafka w2 =
      let (t_ka_inject, w3) = inject_probe_kafka probe_id w2 in
      let (t_ws, w4) = wait_for_websocket_message websocket_timeout w3 in
      let ((delivered, within), w5) = judge_websocket t_ka_inject t_ws w4 in
      let (rest, w6) = check_fastapi_alerts w5 in
      (
        record {
          result = report (check_names (is_found t_kafka) delivered within rest);
          fluentd_to_kafka_ms = latency t_inject t_kafka;
          kafka_to_websocket_ms = latency t_ka_inject t_ws;
          total_e2e_ms = both (latency t_inject t_kafka) (latency t_ka_inject t_ws);
        },
        w6,
      )

  unfoldable pub run : String → W → Result Outcome × W
  unfolding inject_probe_log scan_kafka_for_probe measure
  run probe_id w =
      let (t_inject, w1) = inject_probe_log probe_id w in
      let (scanned, w2) = scan_kafka_for_probe probe_id w1 in
      elim scanned [
        | err e ↦ (err e, w2)
        | ok t_kafka ↦ let (o, w3) = measure probe_id t_inject t_kafka w2 in (ok o, w3)
      ]
