-- ===== src/Chaos/Latency/Anything.antt =====
-- chaos/scenarios/latency_probe.py: what `_wait_for_websocket_message` takes for the probe.
use aiops_distributed_log.Prelude.{ℕ, ◌≡◌, String, Option, Result-cases, inl, inr, arith}
use aiops_distributed_log.Chaos.Host.{Host}
use aiops_distributed_log.Chaos.Latency.{
  Clients, Received, text, timed_out, failed, run, measure, attempt, attempts, check_fastapi_alerts,
  judge_websocket, scan_kafka_for_probe, inject_probe_log, inject_probe_kafka,
  wait_for_websocket_message,
}

-- The messages of the socket with other texts.
abbrev pub retell : (String → String) → Received → Received
retell f (text msg) = text (f msg)
retell f timed_out = timed_out
retell f (failed e) = failed e

abbrev pub with_texts : {W : Type 0} → (String → String) → Clients W → Clients W
with_texts f c = record c {
  ws_recv = λ timeout w. let (received, w') = c.ws_recv timeout w in (retell f received, w');
}

module _ {W : Type 0} (h : Host W) (c : Clients W) (f : String → String) where
  wait_retold :
      (timeout : ℕ) (w : W)
      → wait_for_websocket_message h (with_texts f c) timeout w
        ≡ wait_for_websocket_message h c timeout w
  unfolding wait_for_websocket_message
  wait_retold timeout w = ground arith

  measure_retold :
      (probe_id : String) (t_inject : ℕ) (t_kafka : Option ℕ) (w : W)
      → measure h (with_texts f c) probe_id t_inject t_kafka w
        ≡ measure h c probe_id t_inject t_kafka w
  unfolding measure attempts attempt judge_websocket check_fastapi_alerts inject_probe_kafka
  measure_retold probe_id t_inject t_kafka w = simp (wait_retold)

  -- A run does not look at what the message says: with any other texts in the messages of the
  -- socket, the greeting of the endpoint among them, it has the same outcome and the same end.
  pub run-with_texts :
      (probe_id : String) (w : W) → run h (with_texts f c) probe_id w ≡ run h c probe_id w
  unfolding run scan_kafka_for_probe inject_probe_log
  run-with_texts probe_id w =
      let (t_inject, w1) = inject_probe_log h c probe_id w in
      let w2 = (scan_kafka_for_probe h c probe_id w1).1 in
      elim (Result-cases (scan_kafka_for_probe h c probe_id w1).0) [
        | inl (t, e) ↦ let same = measure_retold probe_id t_inject t w2 in ground arith
        | inr (x, e) ↦ ground arith
      ]
