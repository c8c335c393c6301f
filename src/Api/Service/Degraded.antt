-- ===== src/Api/Service/Degraded.antt =====
-- The gateway of src/api/main.py without a database.
use aiops_distributed_log.Prelude.{
  ℕ, ◌+◌, ◌≡◌, refl, true, false, List, [], ◌∷◌, ◌++◌, String, Option, err, map, length, arith,
  Result-cases, inl, inr,
}
use aiops_distributed_log.Api.Alerts.{
  AlertEvent, AlertRow, Validation, Delivery, Gateway, parse_message, build_alert, accept_alert,
  handle_messages,
}
use aiops_distributed_log.Api.Alerts.Messages.{alerts_of, payload}
use aiops_distributed_log.Api.Alerts.Loop.{
  Session, create_failed, create_cancelled, consumed, run_session, consumer_loop,
  messages_before_end, consumer_loop_lem,
}
use aiops_distributed_log.Api.Queries.{Response, in_range}
use aiops_distributed_log.Api.Queries.Recent.{get_recent_alerts, get_recent_alerts_lem}
use aiops_distributed_log.Api.Service.{startup, lifespan, health_check}

module _ (v : Validation) where
  open v use {Number}

  -- The part of the state that the database has to do with.
  AsBefore : Gateway Number → Gateway Number → Type 0
  AsBefore g g' = (g'.has_pool ≡ false) × (g'.alerts ≡ g.alerts)

  accept-AsBefore :
      (d : Delivery) (alert : AlertEvent Number) (g : Gateway Number)
      → g.has_pool ≡ false
      → AsBefore g (accept_alert v d alert g)
  unfolding accept_alert AsBefore
  accept-AsBefore d alert g none = ground arith

  messages-AsBefore :
      (ds : List Delivery) (g : Gateway Number)
      → g.has_pool ≡ false
      → AsBefore g (handle_messages v ds g)
  unfolding handle_messages AsBefore
  messages-AsBefore [] g none = (none, refl)
  messages-AsBefore (d ∷ ds) g none =
      elim (Result-cases (build_alert v (parse_message v d.raw) d.now)) [
        | inl (alert, e) ↦
            ground (
              arith,
              accept-AsBefore d alert g none,
              messages-AsBefore ds (accept_alert v d alert g),
            )
        | inr (x, e) ↦ ground (arith, messages-AsBefore ds g none)
      ]

  session-AsBefore :
      (s : Session) (g : Gateway Number) → g.has_pool ≡ false → AsBefore g (run_session v s g).0
  unfolding run_session AsBefore
  session-AsBefore create_failed g none = ground arith
  session-AsBefore create_cancelled g none = ground arith
  session-AsBefore (consumed ds ending) g none =
      ground (arith, messages-AsBefore ds (record g { has_consumer = true }) none)

  loop-AsBefore :
      (sessions : List Session) (g : Gateway Number)
      → g.has_pool ≡ false
      → AsBefore g (consumer_loop v sessions g)
  unfolding consumer_loop AsBefore
  loop-AsBefore [] g none = (none, refl)
  loop-AsBefore (s ∷ rest) g none =
      ground (arith, session-AsBefore s g none, loop-AsBefore rest (run_session v s g).0)

  -- When the pool cannot be created, and no consumer is running yet, the gateway runs without the
  -- database: all alerts up to the cancellation are counted and broadcast in order, none is stored,
  -- the health check says so, the query for alerts is refused as unavailable if its limit is valid,
  -- and the shutdown finds neither a consumer to stop nor a pool to close.
  pub lifespan-degraded :
      (e : String) (sessions : List Session) (g : Gateway Number) (upper : String → String)
      (sort : List (AlertRow Number) → List (AlertRow Number)) (limit : ℕ) (c s : Option String)
      → g.has_consumer ≡ false
      → in_range 1 500 limit ≡ true
      → let out = lifespan v (err e) sessions g in
        let alerts = alerts_of v (messages_before_end v sessions) in
        (out.gateway.payloads ≡ g.payloads ++ map (payload v) alerts)
        × (out.gateway.alerts_received ≡ g.alerts_received + length alerts)
        × (out.gateway.alerts ≡ g.alerts)
        × (health_check v out.gateway ≡ ("degraded", "starting"))
        × (get_recent_alerts upper sort out.gateway.has_pool limit c s out.gateway.alerts
            ≡ Response.unavailable)
        × (out.stops_consumer ≡ false)
        × (out.closes_pool ≡ false)
  unfolding lifespan health_check startup AsBefore
  lifespan-degraded e sessions g upper sort limit c s idle valid =
      let g' = record g { has_pool = false } in
      let out = consumer_loop v sessions g' in
      ground (
        arith,
        loop-AsBefore sessions g' refl,
        consumer_loop_lem v sessions g' idle,
        get_recent_alerts_lem upper sort out.has_pool limit c s out.alerts,
      )
