-- ===== src/Api/Alerts/Loop.antt =====
-- src/api/main.py, the outer loop of `kafka_consumer_loop` and `lifespan`: sessions with the
-- broker, one after the other, until the task is cancelled.
use aiops_distributed_log.Prelude.{
  ◌+◌, ◌≡◌, refl, Bool, true, false, List, [], ◌∷◌, ◌++◌, arith, map, length, list_laws, append-nil,
  if◌then◌else◌,
}
use aiops_distributed_log.Api.Alerts.{Validation, Delivery, Gateway, handle_messages}
use aiops_distributed_log.Api.Alerts.Messages.{alerts_of, payload, handle_messages_lem}

-- How the iteration over a consumer ends: it runs dry, the task is cancelled, or it raises.
pub data Ending : Type 0 where
  exhausted cancelled crashed : Ending

-- One round of `while True`: no consumer after the retries of `_create_kafka_consumer`, a
-- cancellation while it is created, or a consumer and the messages that it hands over.
pub data Session : Type 0 where
  create_failed : Session
  create_cancelled : Session
  consumed : List Delivery → Ending → Session

module _ (v : Validation) where
  open v use {Number}

  -- The `finally` block: the consumer is stopped, whatever `stop` does, and forgotten.
  unfoldable pub release : Gateway Number → Gateway Number
  release g = if g.has_consumer then record g { has_consumer = false } else g

  -- The state after a round, and whether it left the loop.
  unfoldable pub run_session : Session → Gateway Number → Gateway Number × Bool
  unfolding release
  run_session create_failed g = (release g, false)
  run_session create_cancelled g = (release g, true)
  run_session (consumed ds ending) g = (
    release (handle_messages v ds (record g { has_consumer = true })),
    elim ending [ exhausted ↦ false | cancelled ↦ true | crashed ↦ false ],
  )

  -- The sessions that the broker and the scheduler bring about; what follows a cancellation is
  -- not looked at.
  unfoldable pub consumer_loop : List Session → Gateway Number → Gateway Number
  unfolding run_session
  consumer_loop [] g = g
  consumer_loop (s ∷ rest) g =
      let (g', left) = run_session s g in
      let later = consumer_loop rest g' in if left then g' else later

  -- The messages of a round.
  abbrev pub messages_of : Session → List Delivery
  messages_of (consumed ds ending) = ds
  messages_of create_failed = []
  messages_of create_cancelled = []

  abbrev leaves : Session → Bool
  leaves create_failed = false
  leaves create_cancelled = true
  leaves (consumed ds ending) = elim ending [
    | exhausted ↦ false
    | cancelled ↦ true
    | crashed ↦ false
  ]

  -- All messages that are handed over before the task ends.
  abbrev pub messages_before_end : List Session → List Delivery
  messages_before_end [] = []
  messages_before_end (s ∷ rest) =
      if leaves s then messages_of s else messages_of s ++ messages_before_end rest

  run_session_lem :
      (s : Session) (g : Gateway Number)
      → ((run_session s g).0.payloads ≡ g.payloads ++ map (payload v) (alerts_of v (messages_of s)))
        × ((run_session s g).0.alerts_received
            ≡ g.alerts_received + length (alerts_of v (messages_of s)))
        × ((run_session s g).0.has_consumer ≡ false)
        × ((run_session s g).1 ≡ leaves s)
  unfolding run_session
  run_session_lem create_failed g = ground (arith, append-nil g.payloads)
  run_session_lem create_cancelled g = ground (arith, append-nil g.payloads)
  run_session_lem (consumed ds ending) g =
      ground (arith, handle_messages_lem v ds (record g { has_consumer = true }))

  alerts_of-append :
      (xs ys : List Delivery) → alerts_of v (xs ++ ys) ≡ alerts_of v xs ++ alerts_of v ys
  alerts_of-append [] ys = refl
  alerts_of-append (d ∷ xs) ys = ground (arith, alerts_of-append xs ys)

  pub consumer_loop_lem :
      (sessions : List Session) (g : Gateway Number)
      → g.has_consumer ≡ false
      → ((consumer_loop sessions g).payloads
          ≡ g.payloads ++ map (payload v) (alerts_of v (messages_before_end sessions)))
        × ((consumer_loop sessions g).alerts_received
            ≡ g.alerts_received + length (alerts_of v (messages_before_end sessions)))
        × ((consumer_loop sessions g).has_consumer ≡ false)
  unfolding consumer_loop
  consumer_loop_lem [] g h = ground (arith, append-nil g.payloads)
  consumer_loop_lem (s ∷ rest) g h =
      let ms = messages_of s in
      grind (
        arith,
        list_laws,
        run_session_lem s g,
        consumer_loop_lem rest (run_session s g).0,
        alerts_of-append ms (messages_before_end rest),
      )
