-- ===== src/Api/Service.antt =====
-- src/api/main.py, `lifespan` and `health_check`: the pool and the consumer from start to end.
pub mod Degraded
mod Tests
use aiops_distributed_log.Prelude.{
  ℕ, Bool, true, false, List, String, Result, ok, err, is_ok, if◌then◌else◌,
}
use aiops_distributed_log.Api.Alerts.{Validation, Delivery, Gateway}
use aiops_distributed_log.Api.Alerts.Loop.{Session, consumer_loop}

-- What is left when the application has ended, and what the shutdown still stops and closes.
pub record Ended (N : Type 0) : Type 0 where
  pub gateway : Gateway N
  pub stops_consumer : Bool
  pub closes_pool : Bool

module _ (v : Validation) where
  open v use {Number}

  -- `created` is what `asyncpg.create_pool` returns or raises.
  unfoldable pub startup : Result (Unit {0}) → Gateway Number → Gateway Number
  startup created g = record g { has_pool = is_ok created }

  -- The task is cancelled and awaited; its last session is among `sessions`.
  unfoldable pub lifespan : Result (Unit {0}) → List Session → Gateway Number → Ended Number
  unfolding startup consumer_loop
  lifespan created sessions g =
      let g' = consumer_loop v sessions (startup created g) in
      record { gateway = g'; stops_consumer = g'.has_consumer; closes_pool = g'.has_pool }

  -- The two dependencies of the answer.
  unfoldable pub health_check : Gateway Number → String × String
  health_check g = (
    if g.has_pool then "connected" else "degraded",
    if g.has_consumer then "running" else "starting",
  )
