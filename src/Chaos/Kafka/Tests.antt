-- ===== src/Chaos/Kafka/Tests.antt =====
-- A run of the Kafka scenario on a host whose answers depend on the clock.
use aiops_distributed_log.Prelude.{ℕ, ◌+◌, ok, ltb, if◌then◌else◌, string_eq, option_eq}
use aiops_distributed_log.Chaos.Host.{Host}
use aiops_distributed_log.Chaos.Scripted.{done}

-- The state is the time; node 3 leads from 130 on, after node 2.
abbrev cluster : Host ℕ
cluster = record {
  now = λ m. m;
  sleep = λ n m. m + n;
  run_cmd =
      λ cmd m. (done (if ltb m 130 then "LeaderId: 2\n" else "LeaderId: 3\nIsr: 1,3,2\n"), m + 1);
  get_url = λ url m. (ok "", m);
}
