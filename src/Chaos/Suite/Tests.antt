-- ===== src/Chaos/Suite/Tests.antt =====
-- A run of all scenarios.
use aiops_distributed_log.Prelude.{◌≡◌, refl, String, ◌++◌}
use aiops_distributed_log.Chaos.Polling.{poll}
use aiops_distributed_log.Chaos.Scripted.{Machine, machine, machine-IsHost}
use aiops_distributed_log.Chaos.Tests.{recovery, election}
use aiops_distributed_log.Chaos.Delta.Tests.{commands, loads, disruption}
use aiops_distributed_log.Chaos.Latency.Tests.{clients}
use aiops_distributed_log.Chaos.Fluentd
use aiops_distributed_log.Chaos.Kafka
use aiops_distributed_log.Chaos.Delta
use aiops_distributed_log.Chaos.Latency
use aiops_distributed_log.Chaos.Runner.{main}
use aiops_distributed_log.Chaos.Suite.{fluentd, kafka, delta, scenario}
use aiops_distributed_log.Chaos.Suite.Passed.{Recovered, FailedOver, Survived, Delivered, main_all}

-- The answers to the four scenarios, one after the other; the last two commands have none.
abbrev night : Machine
night = record { time = 100; script = recovery.script ++ (election.script ++ disruption.script) }

abbrev named : Machine → String
named m = "p1"

exit_zero : (main machine (scenario machine commands loads clients named) "all" night).1 ≡ 0
unfolding main scenario Fluentd.run Kafka.run Delta.run Latency.run poll
exit_zero = refl

main_all_example :
    let w1 = (fluentd machine commands loads clients named night).1 in
    let w2 = (kafka machine commands loads clients named w1).1 in
    let w3 = (delta machine commands loads clients named w2).1 in
    Recovered machine machine-IsHost commands loads clients named night
    × FailedOver machine machine-IsHost commands loads clients named w1
    × Survived machine machine-IsHost commands loads clients named w2
    × Delivered machine machine-IsHost commands loads clients named w3
main_all_example = main_all machine machine-IsHost commands loads clients named night exit_zero
