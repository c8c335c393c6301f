-- ===== src/Chaos/Delta/Tests.antt =====
-- Runs of the Delta scenario.
use aiops_distributed_log.Prelude.{
  ℕ, ◌+◌, ◌≤◌, ◌≡◌, ◌⊎◌, refl, true, List, [], ◌∷◌, String, Option, none, some, ok, pos, int_beq,
  ltb, Bool-cases, inl, inr, if◌then◌else◌, ◌==◌, string_eq, arith,
}
use aiops_distributed_log.Chaos.Host.{Host, IsHost, Completed, report}
use aiops_distributed_log.Chaos.Polling.{poll}
use aiops_distributed_log.Chaos.Scripted.{Machine, machine, done, failed}
use aiops_distributed_log.Chaos.Text.{strip, splitlines}
use aiops_distributed_log.Chaos.Delta
use aiops_distributed_log.Chaos.Delta.Snippet.{Table, measure_table, IsSpark}
use aiops_distributed_log.Chaos.Delta.Kept.{Holds, IsUnreadable, table_kept}

abbrev start : List Completed → Machine
start cs = record { time = 100; script = cs }

abbrev pub commands : Delta.Commands
commands = record {
  write_snippet = "write";
  submit_check = "check";
  count_tmp = "count";
  submit_job = "submit";
}

abbrev pub loads : String → Option Delta.State
loads s = if s == "{5}" then some (record { version = pos 5; row_count = pos 50 }) else none

-- The table is read as version 5, and cannot be read afterwards.
abbrev pub disruption : Machine
disruption = start (
    done ""
    ∷ done "log\n{x\n {5}\n"
    ∷ done ""
    ∷ done ""
    ∷ done ""
    ∷ done ""
    ∷ done ""
    ∷ done "0\n"
    ∷ done ""
    ∷ failed
    ∷ [])

abbrev survived : Delta.Outcome
survived = record {
  result = report (Delta.check_names true true true true);
  before = record { version = pos 5; row_count = pos 50 };
  after = Delta.unreadable;
}

safety_run :
    Delta.run machine commands loads 31 disruption
    ≡ some (survived, record { time = 135; script = [] })
unfolding Delta.run poll
safety_run = refl

-- A master that runs the script; the state is the time, and the job commits at 110.
abbrev table_at : ℕ → Table
table_at t =
    if ltb t 110
    then record { history = ok (5 ∷ []); rows = ok 50 }
    else record { history = ok (6 ∷ []); rows = ok 60 }

abbrev dumps : Delta.State × Option String → String
dumps r = if int_beq r.0.version (pos 5) then "{5}" else "{6}"

abbrev loads_both : String → Option Delta.State
loads_both s =
    if s == "{5}"
    then some (record { version = pos 5; row_count = pos 50 })
    else some (record { version = pos 6; row_count = pos 60 })

abbrev master : Host ℕ
master = record {
  now = λ m. m;
  sleep = λ n m. m + n;
  run_cmd = λ cmd m. (
    done (if cmd == "check" then (if ltb m 110 then "log\n{5}\n" else "log\n{6}\n") else "0"),
    m + 1,
  );
  get_url = λ url m. (ok "", m);
}

master-IsHost : IsHost master
master-IsHost = record {
  now-sleep = λ n m. omega arith;
  now-run_cmd = λ c m. omega arith;
  now-get_url = λ u m. omega arith;
}

master-IsSpark : IsSpark master commands loads_both dumps table_at
unfolding measure_table strip splitlines
master-IsSpark = record {
  chatter = λ m. "log" ∷ [];
  rest = λ m. [];
  is_chatter = λ m. (refl, tt);
  prints = λ m. elim (Bool-cases (ltb m 110)) [ inl e ↦ rw e | inr e ↦ rw e ];
  is_object = λ m. elim (Bool-cases (ltb m 110)) [ inl e ↦ rw e | inr e ↦ rw e ];
  loads-dumps = λ m. elim (Bool-cases (ltb m 110)) [ inl e ↦ rw e | inr e ↦ rw e ];
}

abbrev committed : Delta.Outcome
committed = record {
  result = report (Delta.check_names true true true true);
  before = record { version = pos 5; row_count = pos 50 };
  after = record { version = pos 6; row_count = pos 60 };
}

run-committed : Delta.run master commands loads_both 31 100 ≡ some (committed, 135)
unfolding Delta.run poll
run-committed = refl

table_kept_example :
    (v : ℕ) × (135 ≡ v + 1)
    × (IsUnreadable (table_at v)
        ⊎ ((version' : ℕ) × (rows' : ℕ) × Holds (table_at v) version' rows'
            × (5 ≤ version')
            × (50 ≤ rows')))
table_kept_example =
    table_kept master master-IsHost commands loads_both dumps table_at master-IsSpark 31 100 135
      committed 5 50 run-committed refl ((5 ∷ [], refl, refl), refl)
