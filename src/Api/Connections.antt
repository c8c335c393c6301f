-- ===== src/Api/Connections.antt =====
-- src/api/main.py, `class ConnectionManager`: the registered WebSocket clients and the two
-- metrics that it keeps. A client is the identity of its `WebSocket` object, a number.
pub mod Broadcast
pub mod Tasks
pub mod Endpoint
pub mod Tests
use aiops_distributed_log.Prelude.{
  ℕ, ◌+◌, ◌≡◌, Bool, not, List, [], ◌∷◌, ◌++◌, Result, ok, err, length, filter, contains, ◌==◌,
  is_empty, if◌then◌else◌, nat_eq,
}

abbrev pub WebSocket : Type 0
WebSocket = ℕ

pub record Manager : Type 0 where
  pub connections : List WebSocket
  -- the gauge WS_CLIENTS_ACTIVE
  pub clients_active : ℕ
  -- the counter WS_MESSAGES_SENT_TOTAL
  pub messages_sent : ℕ

abbrev pub init : Manager
init = record { connections = []; clients_active = 0; messages_sent = 0 }

abbrev pub set_connections : List WebSocket → Manager → Manager
set_connections cs m = record m { connections = cs; clients_active = length cs }

-- The part of `connect` behind `accept`: there is no await between the append and the gauge.
unfoldable pub register : WebSocket → Manager → Manager
register ws m = set_connections (m.connections ++ ws ∷ []) m

-- `accepted` is what the handshake did; if it raises nothing is registered.
unfoldable pub connect : Result (Unit {0}) → WebSocket → Manager → Result (Unit {0}) × Manager
unfolding register
connect (ok _) ws m = (ok tt, register ws m)
connect (err e) ws m = (err e, m)

unfoldable pub disconnect : WebSocket → Manager → Manager
disconnect ws m = set_connections (filter (λ c. not (c == ws)) m.connections) m

-- The loop of `broadcast` over the snapshot; `send ws` is whether `send_text` returned.
unfoldable pub send_all :
    (WebSocket → Bool) → List WebSocket → Manager → List WebSocket → Manager × List WebSocket
send_all send [] m dead = (m, dead)
send_all send (ws ∷ live) m dead =
    send_all send live (if send ws then record m { messages_sent = m.messages_sent + 1 } else m)
      (if send ws then dead else dead ++ ws ∷ [])

-- The clean-up at the end of `broadcast`.
unfoldable pub drop_dead : List WebSocket → Manager → Manager
drop_dead dead m =
    if is_empty dead
    then m
    else set_connections (filter (λ c. not (contains dead c)) m.connections) m

unfoldable pub broadcast : (WebSocket → Bool) → Manager → Manager
unfolding send_all drop_dead
broadcast send m = let (m', dead) = send_all send m.connections m [] in drop_dead dead m'

-- The gauge shows the number of registered clients.
abbrev pub IsMetered : Manager → Type 0
IsMetered m = m.clients_active ≡ length m.connections
