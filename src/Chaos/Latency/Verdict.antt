-- ===== src/Chaos/Latency/Verdict.antt =====
-- The verdict of chaos/scenarios/latency_probe.py.
use mathlib.Core.Path.{subst}
use aiops_distributed_log.Prelude.{
  ℕ, zero, suc, ◌<◌, ◌≡◌, true, ◌&&◌, String, Option, none, some, ok, Result-cases, arith,
  Bool-cases, Option-cases, inl, inr, ◌⊎◌,
}
use aiops_distributed_log.Chaos.Host.{Host}
use aiops_distributed_log.Chaos.Latency.{
  Clients, Outcome, run, attempt, attempts, check_fastapi_alerts, judge_websocket, latency,
  is_found, target_latency_ms, scan_kafka_for_probe, inject_probe_log, inject_probe_kafka, measure,
  wait_for_websocket_message,
}

module _ {W : Type 0} (h : Host W) (c : Clients W) where
  open h use {now}

  -- The first attempt that answers decides; each fails only for itself.
  attempts-true :
      (n : ℕ) (w : W)
      → (attempts h c n w).0 ≡ true
      → (v : W) × (attempt h c v ≡ (true, (attempts h c n w).1))
  unfolding attempts
  attempts-true zero w e = absurd (ground arith)
  attempts-true (suc n) w e = elim (Bool-cases (attempt h c w).0) [
    | inl answered ↦ (w, ground arith)
    | inr silent ↦
        let w' = (attempt h c w).1 in
        let (v, e') =
          attempts-true n (elim n [ zero ↦ w' | suc k ↦ h.sleep 2 w' ]) (ground arith) in
        (v, ground arith)
  ]

  -- How a passed run judged the delivery: by a message in time, or by the REST endpoint alone.
  abbrev pub WasDelivered : Outcome → Type 0
  WasDelivered o =
      ((ms : ℕ) × (o.kafka_to_websocket_ms ≡ some ms) × (ms < target_latency_ms))
      ⊎ ((o.kafka_to_websocket_ms ≡ none) × ((v : W) × (u : W) × (attempt h c v ≡ (true, u))))

  -- `measure` alone: the probe was found before it, the last attempt at the REST endpoint has
  -- answered, and the delivery was judged so.
  measure-passed :
      (probe_id : String) (t_inject : ℕ) (t_kafka : Option ℕ) (w2 : W)
      → (measure h c probe_id t_inject t_kafka w2).0.result.passed ≡ true
      → (is_found t_kafka ≡ true)
        × ((v : W) × (attempt h c v ≡ (true, (measure h c probe_id t_inject t_kafka w2).1)))
        × WasDelivered (measure h c probe_id t_inject t_kafka w2).0
  unfolding measure judge_websocket check_fastapi_alerts
  measure-passed probe_id t_inject t_kafka w2 p =
      let (t_ka_inject, w3) = inject_probe_kafka h c probe_id w2 in
      let (t_ws, w4) = wait_for_websocket_message h c 30 w3 in
      let (judged, w5) = judge_websocket h c t_ka_inject t_ws w4 in
      let found : is_found t_kafka ≡ true = ground arith in
      let delivered : (judged.0 && judged.1) ≡ true = ground arith in
      let rest : (attempts h c 3 w5).0 ≡ true = ground arith in
      (
        found,
        attempts-true 3 w5 rest,
        elim (Option-cases (latency t_ka_inject t_ws)) [
          | inr (ms, timed) ↦ inl (ms, timed, ground arith)
          | inl none_came ↦
              let (v, e) = attempts-true 3 w4 (ground arith) in
              inr (none_came, (v, (attempts h c 3 w4).1, e))
        ],
      )

  -- Where a run returns an outcome that passes, the scan has found the probe in Kafka, and the last
  -- attempt at the REST endpoint has returned an alert; the message at the WebSocket came within the
  -- target, or none came and the REST endpoint stood in for it.
  pub verdict-passed :
      (probe_id : String) (w v' : W) (o : Outcome)
      → run h c probe_id w ≡ (ok o, v')
      → o.result.passed ≡ true
      → let w1 = (inject_probe_log h c probe_id w).1 in
        ((t_kafka : Option ℕ) × ((scan_kafka_for_probe h c probe_id w1).0 ≡ ok t_kafka)
          × (is_found t_kafka ≡ true))
        × ((v : W) × (attempt h c v ≡ (true, v')))
        × WasDelivered o
  unfolding run
  verdict-passed probe_id w v' o e p =
      let (t_inject, w1) = inject_probe_log h c probe_id w in
      let (scanned, w2) = scan_kafka_for_probe h c probe_id w1 in
      elim (Result-cases scanned) [
        | inr (raised, failed) ↦ absurd (ground arith)
        | inl (t_kafka, found) ↦
            let (o', u) = measure h c probe_id t_inject t_kafka w2 in
            let same : o' ≡ o = ground arith in
            let end : u ≡ v' = ground arith in
            let (a, b, d) = measure-passed probe_id t_inject t_kafka w2 (ground arith) in
            (
              (t_kafka, found, a),
              subst (λ x. (v : W) × (attempt h c v ≡ (true, x))) end b,
              subst WasDelivered same d,
            )
      ]
