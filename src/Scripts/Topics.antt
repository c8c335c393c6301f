-- ===== src/Scripts/Topics.antt =====
-- scripts/setup_kafka_topics.py: wait for a broker, create the topics, and check that they exist.
use aiops_distributed_log.Prelude.{
  ℕ, ◌+◌, ◌≡◌, ◌≤◌, refl, Bool, true, false, ◌&&◌, List, [], ◌∷◌, String, Option, none, some,
  Result, ok, err, contains, if◌then◌else◌, arith, Option-cases, inl, inr, ◌⊎◌, all, ◌==◌,
  string_eq,
}
use aiops_distributed_log.Chaos.Host.{Host, IsHost}
use aiops_distributed_log.Chaos.Polling.{poll, poll-returns}

pub record Topic : Type 0 where
  pub name : String
  pub partitions : ℕ
  pub replication : ℕ
  pub retention_ms : ℕ
  pub min_insync_replicas : ℕ
  pub cleanup_policy : String

abbrev topic : String → ℕ → ℕ → ℕ → Topic
topic name' partitions' replication' retention' = record {
  name = name';
  partitions = partitions';
  replication = replication';
  retention_ms = retention';
  min_insync_replicas = 2;
  cleanup_policy = "delete";
}

abbrev pub topics : List Topic
topics = topic "system-logs" 3 3 86400000 ∷ topic "critical-alerts" 1 3 604800000 ∷ []

-- What a connection attempt and `create_topics` do.
pub data Connection : Type 0 where
  reachable no_brokers other_error : Connection

pub data Creation : Type 0 where
  created already_exists refused : Creation

pub record Admin (W : Type 0) : Type 0 where
  pub connect : W → Connection × W
  pub create : List Topic → W → Creation × W
  pub list_topics : W → List String × W

-- Topics that exist already are no error.
abbrev pub accepted : Creation → Bool
accepted created = true
accepted already_exists = true
accepted refused = false

module _ {W : Type 0} (h : Host W) (a : Admin W) where
  open h use {now, sleep}
  open a use {connect, create, list_topics}

  -- A round of `wait_for_broker`; an exception of another kind leaves it.
  unfoldable pub broker_round : W → Option (Result (Unit {0})) × W
  broker_round w =
      let (answer, w') = connect w in
      elim answer [
        | reachable ↦ (some (ok tt), w')
        | no_brokers ↦ (none, sleep 3 w')
        | other_error ↦ (some (err "KafkaError"), w')
      ]

  -- At the deadline the program exits.
  unfoldable pub wait_for_broker : ℕ → ℕ → W → Option (Result (Unit {0}) × W)
  unfolding broker_round
  wait_for_broker fuel max_wait w = elim (poll now (now w + max_wait) broker_round fuel w) [
    | none ↦ none
    | some (ended, w') ↦ some (elim ended [ some r ↦ r | none ↦ err "SystemExit" ], w')
  ]

  unfoldable pub verify_topics : List Topic → List String → Bool → Bool
  verify_topics [] existing all_ok = all_ok
  verify_topics (t ∷ ts) existing all_ok =
      verify_topics ts existing (if contains existing t.name then all_ok else false)

  unfoldable pub create_topics : W → Bool × W
  unfolding verify_topics
  create_topics w =
      let (answer, w1) = create topics w in
      let (existing, w2) = list_topics w1 in (verify_topics topics existing (accepted answer), w2)

  -- The exit code, or the exception that leaves `main`.
  unfoldable pub main : ℕ → ℕ → W → Option (Result ℕ)
  unfolding wait_for_broker create_topics
  main fuel wait w = elim (wait_for_broker fuel wait w) [
    | none ↦ none
    | some (waited, w') ↦ elim waited [
      | ok _ ↦ some (ok (if (create_topics w').0 then 0 else 1))
      | err e ↦ some (if e == "SystemExit" then ok 1 else err e)
    ]
  ]

  verify_lem :
      (ts : List Topic) (existing : List String) (b : Bool)
      → verify_topics ts existing b ≡ (b && all (λ (t : Topic). contains existing t.name) ts)
  unfolding verify_topics
  verify_lem [] existing true = refl
  verify_lem [] existing false = refl
  verify_lem (t ∷ ts) existing b =
      ground (arith, verify_lem ts existing (if contains existing t.name then b else false))

  Connection-cases : (c : Connection) → (c ≡ reachable) ⊎ (c ≡ no_brokers) ⊎ (c ≡ other_error)
  Connection-cases reachable = inl refl
  Connection-cases no_brokers = inr (inl refl)
  Connection-cases other_error = inr (inr refl)

  module _ (is : IsHost h) (fair : (w : W) → now w ≤ now (connect w).1) where
    now-broker_round : (w : W) → (broker_round w).0 ≡ none → now w + 1 ≤ now (broker_round w).1
    unfolding broker_round
    now-broker_round w e = elim (Connection-cases (connect w).0) [
      | inl k ↦ absurd (ground arith)
      | inr (inl k) ↦ ground (arith, fair w, is.now-sleep 3 (connect w).1)
      | inr (inr k) ↦ absurd (ground arith)
    ]

    -- With one round more than there are seconds to wait, the program ends; and if it exits with 0,
    -- each of the two topics was listed by the cluster after their creation, which was not refused.
    pub topics_lem :
        (wait : ℕ) (w : W)
        → (answer : Result ℕ) × (main (wait + 1) wait w ≡ some answer)
          × (answer ≡ ok 0
              → (v : W) × (accepted (create topics v).0 ≡ true)
                × (all (λ (t : Topic). contains (list_topics (create topics v).1).0 t.name) topics
                    ≡ true))
    unfolding main wait_for_broker create_topics
    topics_lem wait w =
        let ((ended, w'), e) =
          poll-returns now (now w + wait) broker_round (wait + 1) w now-broker_round (omega arith)
            (omega arith) in
        elim (Option-cases ended) [
          | inl over ↦ (ok 1, ground arith, λ zero_code. absurd (ground arith))
          | inr (err x, left) ↦ (
            if x == "SystemExit" then ok 1 else err x,
            ground arith,
            λ zero_code. absurd (ground arith),
          )
          | inr (ok _, reached) ↦ (
            ok (if (create_topics w').0 then 0 else 1),
            ground arith,
            λ zero_code.
                let (existing, w2) = list_topics (create topics w').1 in
                let b = accepted (create topics w').0 in
                (
                  w',
                  ground (arith, verify_lem topics existing b),
                  ground (arith, verify_lem topics existing b),
                ),
          )
        ]
