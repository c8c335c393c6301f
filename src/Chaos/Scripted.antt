-- ===== src/Chaos/Scripted.antt =====
-- A concrete host: the answers to the commands are given in advance, and each takes a second.
use aiops_distributed_log.Prelude.{ℕ, ◌+◌, List, [], ◌∷◌, String, ok, arith}
use aiops_distributed_log.Chaos.Host.{Completed, Host, IsHost}

pub record Machine : Type 0 where
  pub time : ℕ
  pub script : List Completed

abbrev pub done : String → Completed
done out = record { returncode = 0; stdout = out }

abbrev pub failed : Completed
failed = record { returncode = 1; stdout = "" }

-- Past the end of the script every command fails.
abbrev pub answer : List Completed → Completed
answer [] = failed
answer (c ∷ cs) = c

abbrev pub later : List Completed → List Completed
later [] = []
later (c ∷ cs) = cs

abbrev pub machine : Host Machine
machine = record {
  now = λ m. m.time;
  sleep = λ n m. record m { time = m.time + n };
  run_cmd = λ cmd m. (answer m.script, record { time = m.time + 1; script = later m.script });
  get_url = λ url m. (ok "[1]", m);
}

pub machine-IsHost : IsHost machine
machine-IsHost = record {
  now-sleep = λ n m. omega arith;
  now-run_cmd = λ c m. omega arith;
  now-get_url = λ u m. omega arith;
}
