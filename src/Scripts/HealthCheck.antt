-- ===== src/Scripts/HealthCheck.antt =====
-- scripts/health_check.py: every service has to answer in one and the same round.
use aiops_distributed_log.Prelude.{
  ℕ, zero, suc, ◌≡◌, refl, Bool, true, false, List, [], ◌∷◌, String, Result, ok, err, is_ok, ltb,
  is_empty, if◌then◌else◌, arith,
}
use aiops_distributed_log.Chaos.Text.{starts_with}
use aiops_distributed_log.Chaos.Host.{Host}

abbrev pub services : List (String × String)
services =
    ("Kafka-1", "tcp://localhost:9092")
    ∷ ("Kafka-2", "tcp://localhost:9094")
    ∷ ("Kafka-3", "tcp://localhost:9096")
    ∷ ("MinIO API", "http://localhost:9000/minio/health/live")
    ∷ ("MinIO Console", "http://localhost:9001")
    ∷ ("Spark Master", "http://localhost:8081")
    ∷ ("Spark Worker", "http://localhost:8082")
    ∷ ("PostgreSQL", "tcp://localhost:5432")
    ∷ ("FastAPI", "http://localhost:8000/health")
    ∷ ("Grafana", "http://localhost:3000/api/health")
    ∷ []

-- `socket.create_connection` to the address of a URL, and the status of `urlopen`.
pub record Probes (W : Type 0) : Type 0 where
  pub connect_tcp : String → W → Result (Unit {0}) × W
  pub open_status : String → W → Result ℕ × W

module _ {W : Type 0} (h : Host W) (p : Probes W) where
  open h use {sleep}
  open p use {connect_tcp, open_status}

  unfoldable pub check : String → W → Bool × W
  check url w =
      let (connection, w1) = connect_tcp url w in
      let (response, w2) = open_status url w in
      if starts_with url "tcp://"
      then (is_ok connection, w1)
      else (elim response [ ok status ↦ ltb status 400 | err e ↦ false ], w2)

  -- The names of the services that failed.
  unfoldable pub failed_of : List (String × String) → W → List String × W
  unfolding check
  failed_of [] w = ([], w)
  failed_of ((name, url) ∷ rest) w =
      let (fine, w1) = check url w in
      let (failed, w2) = failed_of rest w1 in (if fine then failed else name ∷ failed, w2)

  -- The attempts that are left; before the last one and after it there is no sleep.
  unfoldable pub attempts : ℕ → ℕ → W → Bool × W
  unfolding failed_of
  attempts delay zero w = (false, w)
  attempts delay (suc left) w =
      let (failed, w') = failed_of services w in
      let later = attempts delay left (elim left [ zero ↦ w' | suc n ↦ sleep delay w' ]) in
      if is_empty failed then (true, w') else later

  unfoldable pub run_checks : ℕ → ℕ → W → Bool × W
  unfolding attempts
  run_checks retries delay w = attempts delay retries w

  unfoldable pub main : ℕ → ℕ → W → ℕ
  unfolding run_checks
  main retries delay w = if (run_checks retries delay w).0 then 0 else 1

  -- The states in which the services of a round are checked.
  abbrev pub all_answer : List (String × String) → W → Bool
  all_answer [] w = true
  all_answer ((name, url) ∷ rest) w =
      let (fine, w') = check url w in if fine then all_answer rest w' else false

  failed_lem : (ss : List (String × String)) (w : W) → is_empty (failed_of ss w).0 ≡ all_answer ss w
  unfolding failed_of
  failed_lem [] w = refl
  failed_lem ((name, url) ∷ rest) w = ground (arith, failed_lem rest (check url w).1)

  -- Whether some round of those that are left finds every service answering.
  abbrev pub some_round : ℕ → ℕ → W → Bool
  some_round delay zero w = false
  some_round delay (suc left) w =
      let w' = (failed_of services w).1 in
      if all_answer services w
      then true
      else some_round delay left (elim left [ zero ↦ w' | suc n ↦ sleep delay w' ])

  attempts_lem : (delay n : ℕ) (w : W) → (attempts delay n w).0 ≡ some_round delay n w
  unfolding attempts
  attempts_lem delay zero w = refl
  attempts_lem delay (suc left) w =
      let w' = (failed_of services w).1 in
      ground (
        arith,
        failed_lem services w,
        attempts_lem delay left (elim left [ zero ↦ w' | suc n ↦ sleep delay w' ]),
      )

  -- The exit code is 0 exactly if in one of the rounds all ten services answered: a service that
  -- answers in another round only does not count.
  pub main_health :
      (retries delay : ℕ) (w : W)
      → main retries delay w ≡ (if some_round delay retries w then 0 else 1)
  unfolding main run_checks
  main_health retries delay w = ground (arith, attempts_lem delay retries w)
