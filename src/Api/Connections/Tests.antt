-- ===== src/Api/Connections/Tests.antt =====
-- Runs of the connection manager.
use aiops_distributed_log.Prelude.{◌≡◌, refl, Bool, not, true, ok, contains, [], ◌∷◌, ◌==◌, nat_eq}
use aiops_distributed_log.Api.Connections.{WebSocket, Manager, register, broadcast, IsMetered}
use aiops_distributed_log.Api.Connections.Broadcast.{broadcast_lem}
use aiops_distributed_log.Api.Connections.Tasks.{
  idle, flying, count_sent, Reach, here, next, join, snapshot, sent, lost, Reach-IsMetered,
  Reach-IsServed, IsServed,
}
use aiops_distributed_log.Api.Connections.Endpoint.{
  live_alerts, live_alerts_lem, text, disconnected,
}

abbrev three : Manager
three = record { connections = 1 ∷ 2 ∷ 3 ∷ []; clients_active = 3; messages_sent = 10 }

-- Client 2 does not take the message.
abbrev send : WebSocket → Bool
send ws = not (ws == 2)

broadcast_run :
    broadcast send three
    ≡ record { connections = 1 ∷ 3 ∷ []; clients_active = 2; messages_sent = 12 }
unfolding broadcast
broadcast_run = refl

broadcast_lem_example :
    broadcast send three
    ≡ record { connections = 1 ∷ 3 ∷ []; clients_active = 2; messages_sent = 12 }
broadcast_lem_example = broadcast_lem send three refl

abbrev after_sends : Manager
after_sends = record { connections = 1 ∷ 2 ∷ 3 ∷ 4 ∷ []; clients_active = 4; messages_sent = 11 }

-- Client 4 joins and the send to client 2 raises while the broadcast is under way.
abbrev late_join : Reach (idle three) (flying (count_sent after_sends) [] (2 ∷ []))
unfolding register
late_join =
    next
      (next
        (next (next (next here (snapshot three)) (sent 1 three (2 ∷ 3 ∷ []) []))
          (join 4 (flying (count_sent three) (2 ∷ 3 ∷ []) [])))
        (lost 2 after_sends (3 ∷ []) []))
      (sent 3 after_sends [] (2 ∷ []))

Reach-IsMetered_example : IsMetered (count_sent after_sends)
unfolding register
Reach-IsMetered_example = Reach-IsMetered late_join refl

Reach-IsServed_example : IsServed 3 (flying (count_sent after_sends) [] (2 ∷ []))
unfolding register
Reach-IsServed_example = Reach-IsServed 3 late_join refl (refl, refl)

-- A client that sends a text and then goes away.
live_alerts_lem_example :
    let (m', ended) = live_alerts (ok tt) (ok tt) (text ∷ disconnected ∷ []) 4 three in
    (contains m'.connections 4 ≡ not ended) × (ended ≡ true)
live_alerts_lem_example = live_alerts_lem (ok tt) (ok tt) (text ∷ disconnected ∷ []) 4 4 three
