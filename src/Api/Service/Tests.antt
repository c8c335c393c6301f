-- ===== src/Api/Service/Tests.antt =====
-- The gateway without a database, on the sessions of the consumer's tests.
use aiops_distributed_log.Prelude.{◌+◌, ◌≡◌, refl, false, [], none, some, err, map, length}
use aiops_distributed_log.Api.Alerts.Messages.{alerts_of, payload}
use aiops_distributed_log.Api.Alerts.Loop.{messages_before_end}
use aiops_distributed_log.Api.Alerts.Tests.{toy, gateway, sessions}
use aiops_distributed_log.Api.Queries.{Response}
use aiops_distributed_log.Api.Queries.Recent.{get_recent_alerts}
use aiops_distributed_log.Api.Service.{lifespan, health_check}
use aiops_distributed_log.Api.Service.Degraded.{lifespan-degraded}

lifespan-degraded_example :
    let out = lifespan toy (err "ConnectionRefusedError") sessions gateway in
    let alerts = alerts_of toy (messages_before_end toy sessions) in
    (out.gateway.payloads ≡ map (payload toy) alerts)
    × (out.gateway.alerts_received ≡ 5 + length alerts)
    × (out.gateway.alerts ≡ [])
    × (health_check toy out.gateway ≡ ("degraded", "starting"))
    × (get_recent_alerts
          (λ s. s)
          (λ xs. xs)
          out.gateway.has_pool
          50
          (some "RAS")
          none
          out.gateway.alerts
        ≡ Response.unavailable)
    × (out.stops_consumer ≡ false)
    × (out.closes_pool ≡ false)
lifespan-degraded_example =
    lifespan-degraded toy "ConnectionRefusedError" sessions gateway (λ s. s) (λ xs. xs) 50
      (some "RAS") none refl refl
