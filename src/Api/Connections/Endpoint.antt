-- ===== src/Api/Connections/Endpoint.antt =====
-- src/api/main.py, `websocket_live_alerts`: one client from its handshake to its end.
use aiops_distributed_log.Prelude.{
  ◌≡◌, refl, Bool, true, false, not, List, [], ◌∷◌, Result, ok, err, arith, any, contains, ◌==◌,
  nat_eq, if◌then◌else◌, ==_iff,
}
use aiops_distributed_log.Api.Connections.{WebSocket, Manager, connect, register, disconnect}
use aiops_distributed_log.Api.Connections.Tasks.{contains-register, contains-disconnect}

-- What `wait_for(websocket.receive_text(), timeout=30)` does.
pub data Receive : Type 0 where
  text disconnected timed_out failed : Receive

-- Every case but a text is caught outside the loop.
abbrev pub ends : Receive → Bool
ends text = false
ends disconnected = true
ends timed_out = true
ends failed = true

-- `while True`: whether the loop has come to its end.
unfoldable pub receive_loop : List Receive → Bool
receive_loop [] = false
receive_loop (r ∷ rs) = elim (ends r) [ true ↦ true | false ↦ receive_loop rs ]

-- The handshake, the greeting and what the client sends. The result is the manager, and whether
-- the endpoint has returned or raised.
unfoldable pub live_alerts :
    Result (Unit {0}) → Result (Unit {0}) → List Receive → WebSocket → Manager → Manager × Bool
unfolding connect receive_loop
live_alerts accepted greeted receives ws m =
    let (connected, m') = connect accepted ws m in
    elim connected [
      | err e ↦ (m', true)
      | ok _ ↦ elim greeted [
        | err e ↦ (disconnect ws m', true)
        | ok _ ↦ if receive_loop receives then (disconnect ws m', true) else (m', false)
      ]
    ]

receive_loop_lem : (rs : List Receive) → receive_loop rs ≡ any ends rs
unfolding receive_loop
receive_loop_lem [] = refl
receive_loop_lem (r ∷ rs) = ground (arith, receive_loop_lem rs)

-- Once the endpoint has ended, on whatever branch, the client is registered only if it was
-- before and the handshake failed; no other client's registration has changed. It ends exactly
-- when the handshake or the greeting raises or a receive does not return a text.
pub live_alerts_lem :
    (accepted greeted : Result (Unit {0})) (rs : List Receive) (ws c : WebSocket) (m : Manager)
    → let (m', ended) = live_alerts accepted greeted rs ws m in
      (contains m'.connections c ≡ (
        if c == ws
        then elim accepted [ err e ↦ contains m.connections ws | ok _ ↦ not ended ]
        else contains m.connections c))
      × (ended ≡ elim accepted [
        | err e ↦ true
        | ok _ ↦ elim greeted [ err e ↦ true | ok _ ↦ any ends rs ]
      ])
unfolding live_alerts
live_alerts_lem (err e) greeted rs ws c m = (ground (arith, ==_iff c ws), refl)
live_alerts_lem (ok _) (err e) rs ws c m =
    ground (arith, contains-disconnect ws c (register ws m), contains-register ws c m)
live_alerts_lem (ok _) (ok _) rs ws c m =
    ground (
      arith,
      receive_loop_lem rs,
      contains-disconnect ws c (register ws m),
      contains-register ws c m,
    )
