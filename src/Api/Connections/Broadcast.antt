-- ===== src/Api/Connections/Broadcast.antt =====
-- What one `broadcast` does when no other task runs in between, against the plain description:
-- every registered client is sent the payload once, and those that fail are dropped.
use aiops_distributed_log.Prelude.{
  ◌+◌, ◌≡◌, refl, Bool, true, not, List, [], ◌∷◌, ◌++◌, arith, filter, count_if, contains, is_empty,
  append_assoc, append-nil, Bool-cases, inl, inr, ==_iff, nat_eq, contains-filter, length-filter,
}
use aiops_distributed_log.Api.Connections.{
  WebSocket, Manager, send_all, drop_dead, broadcast, IsMetered,
}

filter-congr :
    (p q : WebSocket → Bool) (xs ys : List WebSocket)
    → ((c : WebSocket) → contains ys c ≡ true → p c ≡ q c)
    → ((c : WebSocket) → contains xs c ≡ true → contains ys c ≡ true)
    → filter p xs ≡ filter q xs
filter-congr p q [] ys h sub = refl
filter-congr p q (x ∷ xs) ys h sub =
    ground (arith, h x, sub x, ==_iff x x, filter-congr p q xs ys h (λ c e. sub c (ground arith)))

module _ (send : WebSocket → Bool) where
  -- The loop counts the sends that return and collects the clients whose send raises, in order.
  pub send_all_lem :
      (live : List WebSocket) (m : Manager) (dead : List WebSocket)
      → send_all send live m dead ≡ (
        record m { messages_sent = m.messages_sent + count_if send live },
        dead ++ filter (λ c. not (send c)) live,
      )
  unfolding send_all
  send_all_lem [] m dead = ground (arith, append-nil dead)
  send_all_lem (ws ∷ live) m dead = elim (Bool-cases (send ws)) [
    | inl e ↦ rw e (
        rw (send_all_lem live (record m { messages_sent = m.messages_sent + 1 }) dead)
          (ground arith))
    | inr e ↦ rw e (
        rw (send_all_lem live m (dead ++ ws ∷ []))
          (ground (arith, append_assoc dead (ws ∷ []) (filter (λ c. not (send c)) live))))
  ]

  not-contains-dead :
      (c : WebSocket) (cs : List WebSocket)
      → contains cs c ≡ true
      → not (contains (filter (λ d. not (send d)) cs) c) ≡ send c
  not-contains-dead c cs h = ground (arith, contains-filter (λ d. not (send d)) cs c)

  -- With no client lost the clean-up is skipped, which changes nothing.
  keep_all :
      (cs : List WebSocket) → is_empty (filter (λ c. not (send c)) cs) ≡ true → filter send cs ≡ cs
  keep_all [] h = refl
  keep_all (c ∷ cs) h = ground (arith, keep_all cs)

  survivors :
      (cs : List WebSocket)
      → filter (λ c. not (contains (filter (λ d. not (send d)) cs) c)) cs ≡ filter send cs
  survivors cs =
      filter-congr (λ c. not (contains (filter (λ d. not (send d)) cs) c)) send cs cs
        (λ c h. not-contains-dead c cs h) (λ c h. h)

  -- With a right gauge, a broadcast that no other task interrupts leaves exactly the clients that
  -- took the message, in their order, shows their number and counts one message for each.
  pub broadcast_lem :
      (m : Manager)
      → IsMetered m
      → broadcast send m ≡ record {
        connections = filter send m.connections;
        clients_active = count_if send m.connections;
        messages_sent = m.messages_sent + count_if send m.connections;
      }
  unfolding broadcast drop_dead
  broadcast_lem m h =
      rw (send_all_lem m.connections m [])
        (elim (Bool-cases (is_empty (filter (λ c. not (send c)) m.connections))) [
          | inl none_lost ↦
              rw none_lost
                (ground (arith, keep_all m.connections none_lost, length-filter send m.connections))
          | inr some_lost ↦
              rw some_lost
                (rw (survivors m.connections) (ground (arith, length-filter send m.connections)))
        ])
