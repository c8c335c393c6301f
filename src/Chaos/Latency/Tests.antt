-- ===== src/Chaos/Latency/Tests.antt =====
-- Runs of the latency probe on the scripted host.
use aiops_distributed_log.Prelude.{
  ◌+◌, ◌≡◌, refl, true, List, [], none, some, ok, err, if◌then◌else◌, ◌==◌, string_eq,
}
use aiops_distributed_log.Chaos.Host.{Completed, report}
use aiops_distributed_log.Chaos.Scripted.{Machine, machine}
use aiops_distributed_log.Chaos.Latency

abbrev start : List Completed → Machine
start cs = record { time = 100; script = cs }

-- No message comes at the WebSocket.
abbrev pub clients : Latency.Clients Machine
clients = record {
  has_kafka = true;
  consume = λ n m. (Latency.message "a CHAOS_PROBE_ID=p1 b" 130 Latency.ended, m);
  has_websockets = true;
  ws_connect = λ m. (ok tt, m);
  ws_recv = λ n m. (Latency.timed_out, m);
  append_host_log = λ s m. m;
  log_command = λ p m. p;
  publish_command = λ p m. p;
  count_alerts = λ body. if body == "[1]" then ok 1 else err "JSONDecodeError";
}

abbrev probed : Latency.Outcome
probed = record {
  result = report (Latency.check_names true true true true);
  fluentd_to_kafka_ms = some 29000;
  kafka_to_websocket_ms = none;
  total_e2e_ms = none;
}

-- Two commands have taken a second each.
abbrev probe_end : Machine
probe_end = record { time = 102; script = [] }

probe-run : Latency.run machine clients "p1" (start []) ≡ (ok probed, probe_end)
unfolding Latency.run
probe-run = refl

-- The consumer raises: so does the scenario.
probe-raised :
    (Latency.run machine
      (record clients { consume = λ n m. (Latency.raised "NoBrokersAvailable", m) })
      "p1"
      (start [])).0
    ≡ err "NoBrokersAvailable"
unfolding Latency.run
probe-raised = refl

-- The only message is the greeting of the endpoint.
abbrev greeted : Latency.Clients Machine
greeted = record clients {
  ws_recv = λ n m. (Latency.text "{\"type\": \"connected\"}", record m { time = m.time + 1 });
}

greeting-run : Latency.run machine greeted "p1" (start []) ≡ (
  ok (record probed { kafka_to_websocket_ms = some 1000; total_e2e_ms = some 30000 }),
  record { time = 103; script = [] },
)
unfolding Latency.run
greeting-run = refl
