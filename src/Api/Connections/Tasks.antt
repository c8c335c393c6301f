-- ===== src/Api/Connections/Tasks.antt =====
-- The tasks of the event loop that share the manager. Between two awaits a task runs alone: a
-- client joins or leaves in one step, and a broadcast takes its snapshot, makes each send and
-- cleans up in steps of its own, among which other clients join and leave. The consumer loop
-- awaits each broadcast, so that at most one is under way.
use aiops_distributed_log.Prelude.{
  ◌+◌, ◌≡◌, refl, Bool, true, false, not, Option, none, some, List, [], ◌∷◌, ◌++◌, arith, contains,
  if◌then◌else◌, Bool-cases, inl, inr, contains-filter, contains-append, nat_eq, ◌==◌, ==_iff, ◌||◌,
}
use aiops_distributed_log.Api.Connections.{
  WebSocket, Manager, register, disconnect, send_all, drop_dead, broadcast, IsMetered,
}

-- A broadcast under way: what is left of the snapshot, and the clients whose send has raised.
pub record Flight : Type 0 where
  pub live : List WebSocket
  pub dead : List WebSocket

pub record Loop : Type 0 where
  pub manager : Manager
  pub flight : Option Flight

abbrev pub idle : Manager → Loop
idle m = record { manager = m; flight = none }

abbrev pub flying : Manager → List WebSocket → List WebSocket → Loop
flying m live dead = record { manager = m; flight = some (record { live = live; dead = dead }) }

abbrev pub count_sent : Manager → Manager
count_sent m = record m { messages_sent = m.messages_sent + 1 }

pub data Step : Loop → Loop → Type 0 where
  join : (ws : WebSocket) (l : Loop) → Step l (record l { manager = register ws l.manager })
  leave : (ws : WebSocket) (l : Loop) → Step l (record l { manager = disconnect ws l.manager })
  snapshot : (m : Manager) → Step (idle m) (flying m m.connections [])
  sent :
      (ws : WebSocket) (m : Manager) (live dead : List WebSocket)
      → Step (flying m (ws ∷ live) dead) (flying (count_sent m) live dead)
  lost :
      (ws : WebSocket) (m : Manager) (live dead : List WebSocket)
      → Step (flying m (ws ∷ live) dead) (flying m live (dead ++ ws ∷ []))
  clean_up :
      (m : Manager) (dead : List WebSocket) → Step (flying m [] dead) (idle (drop_dead dead m))

pub data Reach (s : Loop) : Loop → Type 0 where
  here : Reach s s
  next : {t u : Loop} → Reach s t → Step t u → Reach s u

pub drop_dead-IsMetered :
    (dead : List WebSocket) (m : Manager) → IsMetered m → IsMetered (drop_dead dead m)
unfolding drop_dead
drop_dead-IsMetered dead m h = ground arith

Step-IsMetered : {s t : Loop} → Step s t → IsMetered s.manager → IsMetered t.manager
unfolding register disconnect
Step-IsMetered (join ws l) h = refl
Step-IsMetered (leave ws l) h = refl
Step-IsMetered (snapshot m) h = h
Step-IsMetered (sent ws m live dead) h = h
Step-IsMetered (lost ws m live dead) h = h
Step-IsMetered (clean_up m dead) h = drop_dead-IsMetered dead m h

-- Whatever the tasks' order, from a manager whose gauge is right the gauge stays the number of
-- registered clients in every state that the event loop can reach.
pub Reach-IsMetered : {s t : Loop} → Reach s t → IsMetered s.manager → IsMetered t.manager
Reach-IsMetered here h = h
Reach-IsMetered (next r st) h = Step-IsMetered st (Reach-IsMetered r h)

Reach-trans : {s t u : Loop} → Reach s t → Reach t u → Reach s u
Reach-trans r here = r
Reach-trans r (next q st) = next (Reach-trans r q) st

-- The loop of `broadcast` is a run of `sent` and `lost` steps.
Reach-send_all :
    (send : WebSocket → Bool) (live : List WebSocket) (m : Manager) (dead : List WebSocket)
    → let (m', dead') = send_all send live m dead in Reach (flying m live dead) (flying m' [] dead')
unfolding send_all
Reach-send_all send [] m dead = here
Reach-send_all send (ws ∷ live) m dead = elim (Bool-cases (send ws)) [
  | inl e ↦
      rw (e, send_all)
        (Reach-trans (next here (sent ws m live dead))
          (Reach-send_all send live (count_sent m) dead))
  | inr e ↦
      rw (e, send_all)
        (Reach-trans (next here (lost ws m live dead))
          (Reach-send_all send live m (dead ++ ws ∷ [])))
]

-- `broadcast` run alone is one of the interleavings.
pub Reach-broadcast :
    (send : WebSocket → Bool) (m : Manager) → Reach (idle m) (idle (broadcast send m))
unfolding broadcast
Reach-broadcast send m =
    let (m', dead) = send_all send m.connections m [] in
    next (Reach-trans (next here (snapshot m)) (Reach-send_all send m.connections m []))
      (clean_up m' dead)

-- The clean-up removes exactly the clients whose send has raised, whoever joined or left
-- since the snapshot.
pub contains-drop_dead :
    (dead : List WebSocket) (m : Manager) (ws : WebSocket)
    → contains (drop_dead dead m).connections ws
      ≡ (if contains dead ws then false else contains m.connections ws)
unfolding drop_dead
contains-drop_dead [] m ws = refl
contains-drop_dead (d ∷ dead) m ws =
    ground (arith, contains-filter (λ c. not (contains (d ∷ dead) c)) m.connections ws)

pub contains-register :
    (ws c : WebSocket) (m : Manager)
    → contains (register ws m).connections c ≡ (if c == ws then true else contains m.connections c)
unfolding register
contains-register ws c m = ground (arith, contains-append m.connections (ws ∷ []) c)

pub contains-disconnect :
    (ws c : WebSocket) (m : Manager)
    → contains (disconnect ws m).connections c
      ≡ (if c == ws then false else contains m.connections c)
unfolding disconnect
contains-disconnect ws c m = ground (arith, contains-filter (λ d. not (d == ws)) m.connections c)

-- The client is registered, and no send to it has raised in the broadcast under way.
abbrev pub IsServed : WebSocket → Loop → Type 0
IsServed ws l =
    (contains l.manager.connections ws ≡ true)
    × (elim l.flight [ none ↦ false | some f ↦ contains f.dead ws ] ≡ false)

-- Whether the step disconnects the client or loses a send to it.
abbrev harms : WebSocket → {s t : Loop} → Step s t → Bool
harms ws (leave c l) = ws == c
harms ws (lost c m live dead) = ws == c
harms ws (join c l) = false
harms ws (snapshot m) = false
harms ws (sent c m live dead) = false
harms ws (clean_up m dead) = false

abbrev pub harmed : WebSocket → {s t : Loop} → Reach s t → Bool
harmed ws here = false
harmed ws (next r st) = harmed ws r || harms ws st

Step-IsServed :
    (ws : WebSocket) {s t : Loop} (st : Step s t)
    → harms ws st ≡ false
    → IsServed ws s
    → IsServed ws t
Step-IsServed ws (leave c l) e h = ground (arith, contains-disconnect c ws l.manager)
Step-IsServed ws (lost c m live dead) e h =
    ground (arith, contains-append dead (c ∷ []) ws, ==_iff c ws)
Step-IsServed ws (join c l) e h = ground (arith, contains-register c ws l.manager)
Step-IsServed ws (snapshot m) e h = ground arith
Step-IsServed ws (sent c m live dead) e h = ground arith
Step-IsServed ws (clean_up m dead) e h = ground (arith, contains-drop_dead dead m ws)

-- A client that neither disconnects nor loses a send stays registered, whatever other clients
-- and broadcasts do in between.
pub Reach-IsServed :
    (ws : WebSocket) {s t : Loop} (r : Reach s t)
    → harmed ws r ≡ false
    → IsServed ws s
    → IsServed ws t
Reach-IsServed ws here e h = h
Reach-IsServed ws (next r st) e h =
    Step-IsServed ws st (ground arith) (Reach-IsServed ws r (ground arith) h)
