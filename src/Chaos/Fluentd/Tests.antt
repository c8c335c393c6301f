-- ===== src/Chaos/Fluentd/Tests.antt =====
-- A run of the Fluentd scenario on a host whose answers depend on the clock.
use aiops_distributed_log.Prelude.{
  ℕ, ◌+◌, ◌≤◌, ◌<◌, ◌≡◌, refl, Bool, true, false, List, [], ◌∷◌, All, String, some, ok, pos, ltb,
  arith, if◌then◌else◌,
}
use aiops_distributed_log.Chaos.Host.{Host, IsHost, report}
use aiops_distributed_log.Chaos.Polling.{poll}
use aiops_distributed_log.Chaos.Text.Free.{Free}
use aiops_distributed_log.Chaos.Text.Numeral.{is_mark}
use aiops_distributed_log.Chaos.Scripted.{done}
use aiops_distributed_log.Chaos.Fluentd.{
  get_kafka_offset, offset_of, check_names, run, Outcome, docker_stop, docker_start,
  check_fluentd_buffer_nonempty,
}
use aiops_distributed_log.Chaos.Fluentd.Offsets.{
  Partition, IsPartition, printed, get_kafka_offset_lem,
}
use aiops_distributed_log.Chaos.Fluentd.Delivered.{IsBroker, messages, recovery_delivers}
use aiops_distributed_log.Chaos.Fluentd.Liveness.{IsPrompt, GrowsFrom, recovery_in_time}

abbrev partition : String → List ℕ → Partition
partition number offset = record { topic = "system-logs"; number = number; offset = offset }

-- The partitions at a time: the topic grows at 130.
abbrev partitions : ℕ → List Partition
partitions t =
    partition "0" (1 ∷ 5 ∷ []) ∷ partition "1" (if ltb t 130 then 7 ∷ [] else 1 ∷ 3 ∷ []) ∷ []

-- The state is the time.
abbrev clockwork : Host ℕ
clockwork = record {
  now = λ m. m;
  sleep = λ n m. m + n;
  run_cmd = λ cmd m. (done (printed (partitions m)), m + 1);
  get_url = λ url m. (ok "", m);
}

clockwork-IsHost : IsHost clockwork
clockwork-IsHost = record {
  now-sleep = λ n m. omega arith;
  now-run_cmd = λ c m. omega arith;
  now-get_url = λ u m. omega arith;
}

clockwork-IsPrompt : IsPrompt clockwork 1
clockwork-IsPrompt = record { sleep-le = λ n m. omega arith; run_cmd-le = λ c m. omega arith }

late : (v : ℕ) → 130 ≤ v → ltb v 130 ≡ false
late v h = ground arith

grows : GrowsFrom clockwork clockwork-IsHost 1 clockwork-IsPrompt 130 (pos 22)
unfolding get_kafka_offset offset_of
grows v h = rw (late v h, get_kafka_offset) refl

recovery_in_time_example :
    (o : Outcome) × (w' : ℕ) × (run clockwork 46 100 ≡ some (o, w')) × (o.result.passed ≡ true)
unfolding get_kafka_offset docker_stop docker_start check_fluentd_buffer_nonempty
recovery_in_time_example =
    recovery_in_time clockwork clockwork-IsHost 1 clockwork-IsPrompt 130 100 refl refl refl
      (omega arith) (omega arith) grows

printed_run : printed (partitions 130) ≡ "system-logs:0:15\nsystem-logs:1:13\n"
printed_run = refl

name_Free : Free is_mark "system-logs"
name_Free =
    (refl, (refl, (refl, (refl, (refl, (refl, (refl, (refl, (refl, (refl, (refl, tt)))))))))))

growing-IsPartition : (b : Bool) → All (λ d. d < 10) (if b then 7 ∷ [] else 1 ∷ 3 ∷ [])
growing-IsPartition true = (omega arith, tt)
growing-IsPartition false = (omega arith, (omega arith, tt))

partitions-IsPartition : (t : ℕ) → All IsPartition (partitions t)
partitions-IsPartition t = (
  (name_Free, (refl, tt), (omega arith, (omega arith, tt))),
  ((name_Free, (refl, tt), growing-IsPartition (ltb t 130)), tt),
)

clockwork-IsBroker : IsBroker clockwork partitions
clockwork-IsBroker = record {
  partitions-IsPartition = partitions-IsPartition;
  succeeds = λ t. refl;
  prints = λ t. refl;
}

get_kafka_offset_lem_example : get_kafka_offset clockwork 140 ≡ (pos 28, 141)
get_kafka_offset_lem_example =
    get_kafka_offset_lem clockwork 140 (partitions 140) (partitions-IsPartition 140) refl refl

abbrev recovered : Outcome
recovered = record {
  result = report (check_names true true true true);
  offset_before_crash = pos 22;
  after_recovery = some (pos 28, 6);
}

run-recovered : run clockwork 46 100 ≡ some (recovered, 136)
unfolding run poll
run-recovered = refl

recovery_delivers_example :
    (v : ℕ) × (delivered : ℕ) × (136 ≡ v + 1)
    × (recovered.after_recovery ≡ some (pos (messages (partitions v)), delivered))
    × (messages (partitions v) ≡ messages (partitions 100) + delivered)
    × (0 < delivered)
recovery_delivers_example =
    recovery_delivers clockwork clockwork-IsHost partitions clockwork-IsBroker 46 100 recovered
      run-recovered refl
