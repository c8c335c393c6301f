-- ===== src/Chaos/Kafka.antt =====
-- chaos/scenarios/kafka_failover.py: the broker that is the controller is killed, another has to be
-- elected, and the killed one has to come back.
pub mod Ends
pub mod Liveness
pub mod Failover
mod Tests
use Prim.Native.String.{◌++◌ as ◌+++◌}
use aiops_distributed_log.Prelude.{
  ℕ, ◌+◌, ◌-◌, Bool, true, false, not, ◌&&◌, ◌||◌, ◌∷◌, [], List, String, Option, none, some,
  Result, ok, err, ltb, filter, if◌then◌else◌, ◌==◌, string_eq, option_eq, nat_eq,
}
use Prim.Native.String.{len}
use aiops_distributed_log.Chaos.Host.{Host, Completed, succeeded, Report, report}
use aiops_distributed_log.Chaos.Polling.{poll}
use aiops_distributed_log.Chaos.Text.{strip, splitlines, is_in, lower, search_number, to_int, split}

abbrev pub all_containers : List String
all_containers = "kafka-1" ∷ "kafka-2" ∷ "kafka-3" ∷ []

abbrev pub re_election_timeout : ℕ
re_election_timeout = 60

abbrev pub rejoin_timeout : ℕ
rejoin_timeout = 60

-- `host:port` of a broker is its container's name and port.
abbrev pub quorum_command : String → String
quorum_command c =
    "docker exec " +++ c +++ " kafka-metadata-quorum --bootstrap-server " +++ c
    +++ ":29092 describe --status"

abbrev consume_command : String → String
consume_command c =
    "docker exec " +++ c +++ " kafka-console-consumer --bootstrap-server " +++ c
    +++ ":29092 --topic system-logs --from-beginning --max-messages 1 --timeout-ms 10000"

abbrev pub describe_command : String → String
describe_command c =
    "docker exec " +++ c +++ " kafka-topics --bootstrap-server " +++ c
    +++ ":29092 --describe --topic system-logs"

abbrev pub is_leader_line : String → Bool
unfolding lower
is_leader_line line = is_in "LeaderId" line || is_in "leaderId" (lower line)

-- The first line that names the leader and holds a number.
unfoldable pub leader_of : List String → Option ℕ
unfolding lower search_number
leader_of [] = none
leader_of (line ∷ lines) =
    let rest = leader_of lines in
    if is_leader_line line
    then elim (search_number line) [ some n ↦ some n | none ↦ rest ]
    else rest

abbrev pub node_id_to_container : ℕ → Option String
node_id_to_container n =
    if n == 1
    then some "kafka-1"
    else if n == 2
    then some "kafka-2"
    else if n == 3
    then some "kafka-3"
    else none

-- A container's name in a command; an f-string prints `None` for none.
abbrev pub name_of : Option String → String
name_of (some c) = c
name_of none = "None"

-- `int(killed_container.split("-")[1])`, as text
abbrev second : List String → Option String
second (a ∷ b ∷ rest) = some b
second _ = none

abbrev pub node_text : Option String → Result String
unfolding split
node_text none = err "AttributeError"
node_text (some c) = elim (second (split 45 c)) [ some n ↦ ok n | none ↦ err "IndexError" ]

-- The containers that stay.
abbrev pub survivors_of : Option String → List String
survivors_of killed = filter (λ c. not (some c == killed)) all_containers

abbrev pub check_names : Bool → Bool → Bool → Bool → List (String × Bool)
check_names killed elected readable rejoined =
    ("controller_identified", true)
    ∷ ("controller_killed", killed)
    ∷ ("new_controller_elected", elected)
    ∷ ("topic_readable_after_failover", readable)
    ∷ ("killed_broker_rejoined", rejoined)
    ∷ []

pub record Outcome : Type 0 where
  pub result : Report
  -- `killed_controller_node`, where it was found
  pub controller : Option ℕ
  -- `killed_container`, none where the node has no container; the fallback's metric has a remark
  -- behind the name
  pub killed_container : Option String
  -- `new_controller_node` and `election_time_s`
  pub election : Option (ℕ × ℕ)

module _ {W : Type 0} (h : Host W) where
  open h use {now, sleep, run_cmd}

  unfoldable pub controller_from : List String → W → Option ℕ × W
  unfolding leader_of splitlines
  controller_from [] w = (none, w)
  controller_from (c ∷ cs) w =
      let (result, w') = run_cmd (quorum_command c) w in
      let later = controller_from cs w' in
      if succeeded result
      then elim (leader_of (splitlines result.stdout)) [ some n ↦ (some n, w') | none ↦ later ]
      else later

  unfoldable pub get_controller_id : W → Option ℕ × W
  unfolding controller_from
  get_controller_id w = controller_from all_containers w

  unfoldable pub docker_kill : String → W → Bool × W
  docker_kill c w = let (result, w') = run_cmd ("docker kill " +++ c) w in (succeeded result, w')

  unfoldable pub docker_start : String → W → Bool × W
  docker_start c w = let (result, w') = run_cmd ("docker start " +++ c) w in (succeeded result, w')

  unfoldable pub topic_readable : String → W → Bool × W
  unfolding strip
  topic_readable c w =
      let (result, w') = run_cmd (consume_command c) w in
      (succeeded result && ltb 0 (len (strip result.stdout)), w')

  -- The test is whether the node's number stands anywhere in the output.
  unfoldable pub broker_rejoined : Option String → String → W → Result Bool × W
  broker_rejoined killed check_from w =
      let (result, w') = run_cmd (describe_command check_from) w in
      (
        if succeeded result
            then elim (node_text killed) [ ok n ↦ ok (is_in n result.stdout) | err e ↦ err e ]
            else ok false,
        w',
      )

  -- A round of step 3; the value is the new controller's node.
  unfoldable pub election_round : Option String → W → Option ℕ × W
  unfolding get_controller_id
  election_round killed w =
      let (new_id, w') = get_controller_id (sleep 5 w) in
      (
        elim new_id [
          | none ↦ none
          | some n ↦ if node_id_to_container n == killed then none else some n
        ],
        w',
      )

  -- A round of step 5; an exception ends the loop too.
  unfoldable pub rejoin_round : Option String → List String → W → Option (Result (Unit {0})) × W
  unfolding broker_rejoined
  rejoin_round killed [] w = (none, sleep 5 w)
  rejoin_round killed (c ∷ cs) w =
      let (answer, w') = broker_rejoined killed c (sleep 5 w) in
      (elim answer [ ok b ↦ if b then some (ok tt) else none | err e ↦ some (err e) ], w')

  -- Step 4, with the first of the survivors.
  unfoldable pub readable_from : List String → W → Bool × W
  unfolding topic_readable
  readable_from [] w = (false, w)
  readable_from (c ∷ cs) w = topic_readable c w

  abbrev pub target_of : Option ℕ → Option String
  target_of none = some "kafka-1"
  target_of (some n) = node_id_to_container n

  abbrev pub outcome_of : Option ℕ → Option String → Bool → Option (ℕ × ℕ) → Bool → Bool → Outcome
  outcome_of controller' target killed elected readable rejoined = record {
    result =
        report
          (check_names killed (elim elected [ some e ↦ true | none ↦ false ]) readable rejoined);
    controller = controller';
    killed_container = target;
    election = elected;
  }

  -- Step 5 and the end of `run`: the inner result is the exception that leaves it.
  unfoldable pub rejoin :
      ℕ → Option ℕ → Option String → Bool → Option (ℕ × ℕ) → W → Option (Result Outcome × W)
  unfolding readable_from docker_start rejoin_round
  rejoin fuel controller' target killed elected w =
      let survivors = survivors_of target in
      let (readable, w1) = readable_from survivors w in
      let (started, w2) = docker_start (name_of target) w1 in
      elim (poll now (now w2 + rejoin_timeout) (rejoin_round target survivors) fuel w2) [
        | none ↦ none
        | some (ended, w3) ↦ elim ended [
          | none ↦ some (ok (outcome_of controller' target killed elected readable false), w3)
          | some answer ↦ elim answer [
            | ok _ ↦ some (ok (outcome_of controller' target killed elected readable true), w3)
            | err e ↦ some (err e, w3)
          ]
        ]
      ]

  -- The election time is taken from the kill to the answer.
  abbrev pub elected_at : ℕ → Option ℕ × W → Option (ℕ × ℕ)
  elected_at t_kill (none, w) = none
  elected_at t_kill (some n, w) = some (n, now w - t_kill)

  -- Steps 2 and 3.
  unfoldable pub failover : ℕ → Option ℕ → W → Option (Result Outcome × W)
  unfolding docker_kill election_round rejoin
  failover fuel controller' w =
      let target = target_of controller' in
      let (killed, w1) = docker_kill (name_of target) w in
      elim (poll now (now w1 + re_election_timeout) (election_round target) fuel w1) [
        | none ↦ none
        | some ended ↦ rejoin fuel controller' target killed (elected_at (now w1) ended) ended.1
      ]

  unfoldable pub run : ℕ → W → Option (Result Outcome × W)
  unfolding get_controller_id failover
  run fuel w = let (controller', w') = get_controller_id w in failover fuel controller' w'
