-- ===== src/Chaos/Kafka/Failover.antt =====
-- What a passed run of chaos/scenarios/kafka_failover.py shows.
use mathlib.Core.Path.{subst}
use aiops_distributed_log.Prelude.{
  ℕ, ◌+◌, ◌-◌, ◌≡◌, refl, sym, ap, Bool, true, false, List, [], ◌∷◌, String, Option, none, some, ok,
  err, arith, Bool-cases, Option-cases, Result-cases, inl, inr, ◌==◌, ==_iff, contains, option_eq,
  string_eq,
}
use aiops_distributed_log.Chaos.Host.{Host, IsHost}
use aiops_distributed_log.Chaos.Polling.{poll, poll_found}
use aiops_distributed_log.Chaos.Kafka.{
  get_controller_id, docker_kill, docker_start, broker_rejoined, election_round, rejoin_round,
  readable_from, target_of, name_of, survivors_of, rejoin, failover, run, Outcome, outcome_of,
  node_id_to_container, re_election_timeout, rejoin_timeout,
}

module _ {W : Type 0} (h : Host W) (is : IsHost h) where
  open h use {now, sleep, run_cmd}

  -- A round of the election names a node that is not the killed one's.
  elected :
      (target : Option String) (v : W) {n : ℕ} {w : W}
      → election_round h target v ≡ (some n, w)
      → (get_controller_id h (sleep 5 v) ≡ (some n, w))
        × ((node_id_to_container n == target) ≡ false)
  unfolding election_round
  elected target v e = elim (Option-cases (get_controller_id h (sleep 5 v)).0) [
    | inl silent ↦ absurd (ground arith)
    | inr (n, answer) ↦ elim (Bool-cases (node_id_to_container n == target)) [
      | inl same ↦ absurd (ground arith)
      | inr other ↦ ground arith
    ]
  ]

  rejoined :
      (target : Option String) (cs : List String) (v : W) {w : W}
      → rejoin_round h target cs v ≡ (some (ok tt), w)
      → (c : String) × (u : W) × (contains cs c ≡ true)
        × (broker_rejoined h target c u ≡ (ok true, w))
  unfolding rejoin_round
  rejoined target [] v e = absurd (ground arith)
  rejoined target (c ∷ cs) v e = (
    c,
    sleep 5 v,
    ground (arith, ==_iff c c),
    elim (Result-cases (broker_rejoined h target c (sleep 5 v)).0) [
      | inr (x, raised) ↦ absurd (ground arith)
      | inl (b, answer) ↦ ground arith
    ],
  )

  -- The last command of the run shows the node of the container, from another container.
  abbrev pub HasRejoined : W → Option String → Type 0
  HasRejoined w killed =
      (c : String) × (u : W) × (contains (survivors_of killed) c ≡ true)
      × (broker_rejoined h killed c u ≡ (ok true, w))

  -- What a report says of the election and the return.
  -- `w1` is the state after the kill, and `w` that at the end of the run.
  abbrev pub HasFailedOver : W → Outcome → W → Type 0
  HasFailedOver w1 o w =
      ((n : ℕ) × (v : W) × (w2 : W) × (o.election ≡ some (n, now w2 - now w1))
        × (get_controller_id h v ≡ (some n, w2))
        × ((node_id_to_container n == o.killed_container) ≡ false))
      × HasRejoined w o.killed_container

  ReportsRejoin : W → Option String → Bool → Option (ℕ × ℕ) → Outcome → Type 0
  ReportsRejoin w target killed elected o =
      (killed ≡ true)
      × (o.election ≡ elected)
      × (o.killed_container ≡ target)
      × ((e : ℕ × ℕ) × (elected ≡ some e))
      × HasRejoined w target

  passed-outcome :
      (controller' : Option ℕ) (target : Option String) (killed : Bool) (elected : Option (ℕ × ℕ))
      (readable back : Bool)
      → (outcome_of h controller' target killed elected readable back).result.passed ≡ true
      → (back ≡ true) × (killed ≡ true) × ((e : ℕ × ℕ) × (elected ≡ some e))
  passed-outcome controller' target killed none readable back p = absurd (ground arith)
  passed-outcome controller' target killed (some e) readable back p =
      (ground arith, ground arith, (e, refl))

  passed-rejoin :
      (fuel : ℕ) (controller' : Option ℕ) (target : Option String) (killed : Bool)
      (elected : Option (ℕ × ℕ)) (w : W) {o : Outcome} {w' : W}
      → rejoin h fuel controller' target killed elected w ≡ some (ok o, w')
      → o.result.passed ≡ true
      → ReportsRejoin w' target killed elected o
  unfolding rejoin ReportsRejoin
  passed-rejoin fuel controller' target killed elected w {o} {w'} e p =
      let survivors = survivors_of target in
      let (readable, w1) = readable_from h survivors w in
      let (started, w2) = docker_start h (name_of target) w1 in
      let deadline = now w2 + rejoin_timeout in
      let reported = outcome_of h controller' target killed elected readable in
      elim (Option-cases (poll now deadline (rejoin_round h target survivors) fuel w2)) [
        | inl starved ↦ absurd (ground arith)
        | inr ((none, w3), ended) ↦
            let same : reported false ≡ o = ground arith in
            absurd (ground (arith, passed-outcome controller' target killed elected readable false))
        | inr ((some (err x), w3), ended) ↦ absurd (ground arith)
        | inr ((some (ok _), w3), ended) ↦
            let same : reported true ≡ o = ground arith in
            let last : w3 ≡ w' = ground arith in
            let (back, killed', elected') =
              passed-outcome controller' target killed elected readable true
                (subst (λ (x : Outcome). x.result.passed ≡ true) (sym same) p) in
            let (u, early, found) =
              poll_found now deadline (rejoin_round h target survivors) fuel w2 ended in
            (
              killed',
              sym (ap (λ x. x.election) same),
              sym (ap (λ x. x.killed_container) same),
              elected',
              subst (λ x. HasRejoined x target) last (rejoined target survivors u found),
            )
      ]

  -- A run that passes has killed the container of the controller that was named first, or kafka-1
  -- if none was; then a controller of another container was named, and the election time is the
  -- time from the kill to that answer; and at the end the killed node's number was found in what a
  -- surviving broker prints.
  pub failover-passed :
      (fuel : ℕ) (w : W) (o : Outcome) {w'' : W}
      → run h fuel w ≡ some (ok o, w'')
      → o.result.passed ≡ true
      → let (controller', w1) = get_controller_id h w in
        let (killed, w2) = docker_kill h (name_of (target_of h controller')) w1 in
        (killed ≡ true) × (o.killed_container ≡ target_of h controller') × HasFailedOver w2 o w''
  unfolding run failover ReportsRejoin
  failover-passed fuel w o {w''} e p =
      let (controller', w') = get_controller_id h w in
      let target = target_of h controller' in
      let (killed, w1) = docker_kill h (name_of target) w' in
      let deadline = now w1 + re_election_timeout in
      elim (Option-cases (poll now deadline (election_round h target) fuel w1)) [
        | inl starved ↦ absurd (ground arith)
        | inr ((none, w2), ended) ↦
            let e' : rejoin h fuel controller' target killed none w2 ≡ some (ok o, w'') =
              ground arith in
            let (killed', election, same, (x, never), back) =
              passed-rejoin fuel controller' target killed none w2 {w' = w''} e' p in
            absurd (ground arith)
        | inr ((some n, w2), ended) ↦
            let e' : rejoin h fuel controller' target killed (some (n, now w2 - now w1)) w2
                ≡ some (ok o, w'') =
              ground arith in
            let (killed', election, same, found, back) =
              passed-rejoin fuel controller' target killed (some (n, now w2 - now w1)) w2 {w' = w''}
                e' p in
            let (v, early, answer) =
              poll_found now deadline (election_round h target) fuel w1 ended in
            let (named, other) = elected target v answer in
            (
              killed',
              same,
              (
                (
                  n,
                  sleep 5 v,
                  w2,
                  election,
                  named,
                  subst (λ k. (node_id_to_container n == k) ≡ false) (sym same) other,
                ),
                subst (HasRejoined w'') (sym same) back,
              ),
            )
      ]
