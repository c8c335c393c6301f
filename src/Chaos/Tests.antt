-- ===== src/Chaos/Tests.antt =====
-- Runs of the scenarios on the scripted host.
use aiops_distributed_log.Prelude.{
  ◌≡◌, refl, true, List, [], ◌∷◌, String, some, Result, ok, err, pos, negsuc, if◌then◌else◌, ◌==◌,
  string_eq,
}
use aiops_distributed_log.Chaos.Host.{Report, Completed, report}
use aiops_distributed_log.Chaos.Scripted.{Machine, machine, done}
use aiops_distributed_log.Chaos.Polling.{poll}
use aiops_distributed_log.Chaos.Text.{to_int, search_number, split, lower}
use aiops_distributed_log.Chaos.Fluentd
use aiops_distributed_log.Chaos.Fluentd.{total_offset}
use aiops_distributed_log.Chaos.Kafka

abbrev start : List Completed → Machine
start cs = record { time = 100; script = cs }

to_int_run : to_int " -42\n" ≡ some (negsuc 41)
unfolding to_int
to_int_run = refl

search_run : search_number "LeaderId:  12 of 3" ≡ some 12
unfolding search_number
search_run = refl

split_run : split 58 "system-logs:0:15" ≡ "system-logs" ∷ "0" ∷ "15" ∷ []
unfolding split
split_run = refl

lower_run : lower "True" ≡ "true"
unfolding lower
lower_run = refl

offset_run : total_offset ("system-logs:0:15" ∷ "bad" ∷ " system-logs:1:5 " ∷ []) (pos 0) ≡ pos 20
unfolding total_offset to_int
offset_run = refl

-- The offset, stop, the buffer, start, and the offset twice.
abbrev pub recovery : Machine
recovery = start (
    done "system-logs:0:15\n"
    ∷ done ""
    ∷ done "3\n"
    ∷ done ""
    ∷ done "system-logs:0:15\n"
    ∷ done "system-logs:0:21\n"
    ∷ [])

abbrev recovered : Fluentd.Outcome
recovered = record {
  result = report (Fluentd.check_names true true true true);
  offset_before_crash = pos 15;
  after_recovery = some (pos 21, 6);
}

recovery-run :
    Fluentd.run machine 46 recovery ≡ some (recovered, record { time = 136; script = [] })
unfolding Fluentd.run poll
recovery-run = refl

-- Node 2 leads and is killed; node 3 is elected in the second round.
abbrev pub election : Machine
election = start (
    done "ClusterId: x\nLeaderId: 2\n"
    ∷ done ""
    ∷ done "LeaderId: 2\n"
    ∷ done "LeaderId: 3\n"
    ∷ done "a message\n"
    ∷ done ""
    ∷ done "Isr: 1,3,2\n"
    ∷ [])

abbrev failed_over : Kafka.Outcome
failed_over = record {
  result = report (Kafka.check_names true true true true);
  controller = some 2;
  killed_container = some "kafka-2";
  election = some (3, 12);
}

failover-run :
    Kafka.run machine 61 election ≡ some (ok failed_over, record { time = 122; script = [] })
unfolding Kafka.run poll
failover-run = refl

-- The first scenario raises.
abbrev scenario : String → Machine → Result Report × Machine
scenario key m =
    (if key == "fluentd" then err "CalledProcessError" else ok (report (("check", true) ∷ [])), m)
