-- ===== src/Chaos/Fluentd.antt =====
-- chaos/scenarios/fluentd_crash.py: Fluentd is stopped and started again, and the log topic has to
-- grow afterwards.
pub mod Recovery
pub mod Liveness
pub mod Offsets
pub mod Delivered
mod Tests
use Prim.Native.String.{◌++◌ as ◌+++◌}
use aiops_distributed_log.Prelude.{
  ℕ, ◌+◌, Bool, true, false, not, ◌∷◌, [], List, String, Option, none, some, ℤ, pos, negsuc, ◌+ℤ◌,
  int_ltb, gain, if◌then◌else◌, all, ◌==◌, string_eq, nat_beq, length,
}
use aiops_distributed_log.Chaos.Host.{Host, Completed, succeeded, Report, report}
use aiops_distributed_log.Chaos.Polling.{poll}
use aiops_distributed_log.Chaos.Text.{strip, split, splitlines, to_int, lower}

abbrev pub outage_seconds : ℕ
outage_seconds = 20

abbrev pub recovery_wait_seconds : ℕ
recovery_wait_seconds = 45

abbrev poll_interval : ℕ
poll_interval = 5

abbrev pub offset_command : String
offset_command =
    "docker exec kafka-1 kafka-run-class kafka.tools.GetOffsetShell --broker-list kafka-1:29092 --topic system-logs --time -1"

abbrev buffer_command : String
buffer_command =
    "docker run --rm -v aiops_fluentd_buffer:/buf alpine sh -c \"ls /buf/kafka_output 2>/dev/null | wc -l\""

-- `int(parts[2])` of a line with three parts
abbrev pub third : List String → Option String
third (a ∷ b ∷ c ∷ []) = some c
third _ = none

abbrev pub offset_of : Option String → ℤ
unfolding to_int
offset_of none = pos 0
offset_of (some part) = elim (to_int part) [ some n ↦ n | none ↦ pos 0 ]

-- The loop over the lines: those that do not parse are passed over.
unfoldable pub total_offset : List String → ℤ → ℤ
unfolding strip split
total_offset [] total = total
total_offset (line ∷ lines) total =
    total_offset lines (total +ℤ offset_of (third (split 58 (strip line))))

abbrev pub check_names : Bool → Bool → Bool → Bool → List (String × Bool)
check_names stopped buffer restarted grew =
    ("fluentd_stopped_cleanly", stopped)
    ∷ ("buffer_files_present_during_outage", buffer)
    ∷ ("fluentd_restarted_cleanly", restarted)
    ∷ ("kafka_offset_grew_after_recovery", grew)
    ∷ []

-- The report, with the metrics of the scenario.
pub record Outcome : Type 0 where
  pub result : Report
  pub offset_before_crash : ℤ
  -- `offset_after_recovery` and `messages_delivered_after_crash`
  pub after_recovery : Option (ℤ × ℕ)

module _ {W : Type 0} (h : Host W) where
  open h use {now, sleep, run_cmd}

  unfoldable pub get_kafka_offset : W → ℤ × W
  unfolding strip splitlines total_offset
  get_kafka_offset w =
      let (result, w') = run_cmd offset_command w in
      (
        if succeeded result
            then total_offset (splitlines (strip result.stdout)) (pos 0)
            else negsuc 0,
        w',
      )

  unfoldable pub docker_container_running : String → W → Bool × W
  unfolding strip lower
  docker_container_running name w =
      let (result, w') = run_cmd ("docker inspect --format \"{{.State.Running}}\" " +++ name) w in
      (lower (strip result.stdout) == "true", w')

  unfoldable pub docker_stop : String → W → Bool × W
  docker_stop name w =
      let (result, w') = run_cmd ("docker stop " +++ name) w in (succeeded result, w')

  unfoldable pub docker_start : String → W → Bool × W
  docker_start name w =
      let (result, w') = run_cmd ("docker start " +++ name) w in (succeeded result, w')

  -- The count is logged where it is a number; the answer is true either way.
  unfoldable pub check_fluentd_buffer_nonempty : W → Bool × W
  unfolding strip to_int
  check_fluentd_buffer_nonempty w =
      let (result, w') = run_cmd buffer_command w in
      (elim (to_int (strip result.stdout)) [ some count ↦ true | none ↦ true ], w')

  -- One round of the loop of step 6: the value is the offset that has grown.
  unfoldable pub recovery_round : ℤ → W → Option ℤ × W
  unfolding get_kafka_offset
  recovery_round offset_before w =
      let (current, w') = get_kafka_offset (sleep poll_interval w) in
      (if int_ltb offset_before current then some current else none, w')

  -- What stands behind the loop; in its `else` the offset is read once more.
  unfoldable pub conclude : ℤ → Bool → Bool → Bool → Option ℤ × W → Outcome × W
  unfolding get_kafka_offset
  conclude offset_before stopped buffer restarted (some after, w) = (
    record {
      result = report (check_names stopped buffer restarted true);
      offset_before_crash = offset_before;
      after_recovery = some (after, gain after offset_before);
    },
    w,
  )
  conclude offset_before stopped buffer restarted (none, w) =
      let (after, w') = get_kafka_offset w in
      (
        record {
          result = report (check_names stopped buffer restarted false);
          offset_before_crash = offset_before;
          after_recovery = some (after, gain after offset_before);
        },
        w',
      )

  abbrev pub unreachable : ℤ → Outcome
  unreachable offset_before = record {
    result = record {
      passed = false;
      checks = check_names false false false false;
      error = some "Kafka unreachable";
    };
    offset_before_crash = offset_before;
    after_recovery = none;
  }

  -- Steps 2 to 6, from a state in which the offset has been read. `fuel` bounds the loop.
  unfoldable pub crash : ℕ → ℤ → W → Option (Outcome × W)
  unfolding docker_stop check_fluentd_buffer_nonempty docker_start recovery_round conclude
  crash fuel offset_before w =
      let (stopped, w1) = docker_stop "fluentd-agent" w in
      let (buffer, w2) = check_fluentd_buffer_nonempty (sleep outage_seconds w1) in
      let (restarted, w3) = docker_start "fluentd-agent" w2 in
      elim (poll now (now w3 + recovery_wait_seconds) (recovery_round offset_before) fuel w3) [
        | some ended ↦ some (conclude offset_before stopped buffer restarted ended)
        | none ↦ none
      ]

  unfoldable pub run : ℕ → W → Option (Outcome × W)
  unfolding get_kafka_offset crash
  run fuel w =
      let (offset_before, w') = get_kafka_offset w in
      let outcome = crash fuel offset_before w' in
      if int_ltb offset_before (pos 0) then some (unreachable offset_before, w') else outcome
