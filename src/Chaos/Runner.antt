-- ===== src/Chaos/Runner.antt =====
-- chaos/chaos_runner.py: the scenarios one after the other, the report, and the exit code.
use aiops_distributed_log.Prelude.{
  ℕ, ◌-◌, ◌≡◌, refl, Bool, true, false, ◌&&◌, ◌∷◌, [], List, String, some, Result, ok, err, map,
  all, if◌then◌else◌, ◌==◌, string_eq, arith, Result-cases, inl, inr,
}
use aiops_distributed_log.Chaos.Host.{Host, Report}

abbrev pub scenario_keys : List String
scenario_keys = "fluentd" ∷ "kafka" ∷ "delta" ∷ "latency" ∷ []

-- `SCENARIOS[key]["label"]`; the parser lets no other key pass.
abbrev pub label_of : String → String
label_of key =
    if key == "fluentd"
    then "5.1 Fluentd Crash Recovery"
    else if key == "kafka"
    then "5.2 Kafka Controller Re-Election"
    else if key == "delta"
    then "5.3 Delta Lake Transaction Safety"
    else "5.4 End-to-End Latency Validation"

-- A report with what the runner adds.
pub record Entry : Type 0 where
  pub label : String
  pub elapsed_s : ℕ
  pub report : Report

-- The flag of `print_report`, folded over the results.
unfoldable pub all_passed_from : Bool → List Entry → Bool
all_passed_from all_passed [] = all_passed
all_passed_from all_passed (r ∷ results) = all_passed_from (all_passed && r.report.passed) results

-- What `print_report` prints of a scenario and overall.
abbrev pub status : Bool → String
status passed = if passed then "✅ PASS" else "❌ FAIL"

unfoldable pub print_report : List Entry → List (String × String) × Bool
unfolding all_passed_from
print_report results =
    (map (λ (r : Entry). (status r.report.passed, r.label)) results, all_passed_from true results)

-- `mod.run()` of a scenario by its key; an exception of the import counts too.
module _ {W : Type 0} (h : Host W) (scenario : String → W → Result Report × W) where
  open h use {now}

  abbrev pub report_of : Result Report → Report
  report_of (ok r) = r
  report_of (err e) = record { passed = false; checks = []; error = some e }

  unfoldable pub run_scenario : String → W → Entry × W
  run_scenario key w =
      let (result, w') = scenario key w in
      (record { label = label_of key; elapsed_s = now w' - now w; report = report_of result }, w')

  unfoldable pub run_all : List String → W → List Entry × W
  unfolding run_scenario
  run_all [] w = ([], w)
  run_all (key ∷ keys) w =
      let (r, w1) = run_scenario key w in let (rs, w2) = run_all keys w1 in (r ∷ rs, w2)

  abbrev pub keys_of : String → List String
  keys_of choice = if choice == "all" then scenario_keys else choice ∷ []

  -- The saved results and the exit code.
  unfoldable pub main : String → W → List Entry × ℕ
  unfolding run_all
  main choice w =
      let results = (run_all (keys_of choice) w).0 in
      (results, if all (λ (r : Entry). r.report.passed) results then 0 else 1)

  all_passed_lem :
      (b : Bool) (rs : List Entry)
      → all_passed_from b rs ≡ (b && all (λ (r : Entry). r.report.passed) rs)
  unfolding all_passed_from
  all_passed_lem true [] = refl
  all_passed_lem false [] = refl
  all_passed_lem b (r ∷ rs) = ground (arith, all_passed_lem (b && r.report.passed) rs)

  -- The states in which the scenarios start, and whether each returns a report that passed.
  abbrev pub verdicts : List String → W → List Bool
  verdicts [] w = []
  verdicts (key ∷ keys) w =
      let (result, w') = scenario key w in
      (elim result [ ok r ↦ r.passed | err e ↦ false ]) ∷ verdicts keys w'

  entries_lem :
      (keys : List String) (w : W)
      → (map (λ (r : Entry). r.label) (run_all keys w).0 ≡ map label_of keys)
        × (map (λ (r : Entry). r.report.passed) (run_all keys w).0 ≡ verdicts keys w)
        × (all (λ (r : Entry). r.report.passed) (run_all keys w).0 ≡ all (λ b. b) (verdicts keys w))
  unfolding run_all run_scenario
  entries_lem [] w = (refl, refl, refl)
  entries_lem (key ∷ keys) w = elim (Result-cases (scenario key w).0) [
    | inl (r, returned) ↦ ground (arith, entries_lem keys (scenario key w).1)
    | inr (e, raised) ↦ ground (arith, entries_lem keys (scenario key w).1)
  ]

  -- A scenario that raises fails, and does not keep the others from running: the results have one
  -- entry for each scenario chosen, in order, with the verdict of its own run; the exit code is 0
  -- exactly if all passed, and the report prints the same.
  pub main_lem :
      (choice : String) (w : W)
      → let (results, code) = main choice w in
        (map (λ (r : Entry). r.label) results ≡ map label_of (keys_of choice))
        × (map (λ (r : Entry). r.report.passed) results ≡ verdicts (keys_of choice) w)
        × (code ≡ (if all (λ b. b) (verdicts (keys_of choice) w) then 0 else 1))
        × ((print_report results).1 ≡ all (λ b. b) (verdicts (keys_of choice) w))
  unfolding main print_report
  main_lem choice w =
      let keys = keys_of choice in
      ground (arith, entries_lem keys w, all_passed_lem true (run_all keys w).0)
