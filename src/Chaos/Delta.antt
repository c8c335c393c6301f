-- ===== src/Chaos/Delta.antt =====
-- chaos/scenarios/delta_safety.py: the Spark master is killed while the job writes, and the Delta
-- table has to keep its version and its rows.
pub mod Safety
pub mod Snippet
pub mod Kept
pub mod Tests
use Prim.Native.String.{◌++◌ as ◌+++◌}
use aiops_distributed_log.Prelude.{
  ℕ, ◌+◌, Bool, true, false, not, ◌&&◌, ◌∷◌, [], List, String, Option, none, some, Result, ok, err,
  ℤ, pos, negsuc, int_geb, int_beq, is_ok, if◌then◌else◌,
}
use aiops_distributed_log.Chaos.Host.{Host, Completed, succeeded, Report, report}
use aiops_distributed_log.Chaos.Polling.{poll}
use aiops_distributed_log.Chaos.Text.{strip, splitlines, starts_with, to_int}

-- `version` and `row_count`
pub record State : Type 0 where
  pub version : ℤ
  pub row_count : ℤ

abbrev pub unreadable : State
unreadable = record { version = negsuc 0; row_count = negsuc 0 }

-- The commands that are too long to repeat are named by what they do.
pub record Commands : Type 0 where
  -- `cat > /tmp/delta_check.py`, and the submission of that script
  pub write_snippet : String
  pub submit_check : String
  -- `mc find … --name '*.tmp' | wc -l`
  pub count_tmp : String
  pub submit_job : String

abbrev pub kill_delay_seconds : ℕ
kill_delay_seconds = 15

abbrev pub restart_wait_seconds : ℕ
restart_wait_seconds = 30

abbrev last : List String → Option String
last [] = none
last (l ∷ []) = some l
last (l ∷ m ∷ ls) = last (m ∷ ls)

abbrev pub check_names : Bool → Bool → Bool → Bool → List (String × Bool)
check_names killed restarted no_tmp intact =
    ("delta_version_read_before", true)
    ∷ ("spark_master_killed_during_write", killed)
    ∷ ("spark_master_restarted", restarted)
    ∷ ("delta_table_not_corrupted", intact)
    ∷ ("no_uncommitted_tmp_files", no_tmp)
    ∷ ("committed_row_count_intact", intact)
    ∷ []

pub record Outcome : Type 0 where
  pub result : Report
  pub before : State
  pub after : State

-- The state that the later one is compared with.
abbrev pub baseline : State → State
baseline s = if int_geb s.version (pos 0) then s else record { version = pos 0; row_count = pos 0 }

-- Both checks of the table in step 6: an unreadable table counts as intact.
unfoldable pub is_intact : State → State → Bool
is_intact before after =
    if int_geb after.version before.version && int_geb after.row_count before.row_count
    then true
    else int_beq after.version (negsuc 0)

-- `loads` is `json.loads` on a line of the script with the two `get(…, -1)`; `none` is a
-- JSONDecodeError.
module _ {W : Type 0} (h : Host W) (cs : Commands) (loads : String → Option State) where
  open h use {now, sleep, run_cmd, get_url}

  -- The first line that is a JSON object.
  unfoldable pub state_of : List String → State
  unfolding strip
  state_of [] = unreadable
  state_of (line ∷ lines) =
      let rest = state_of lines in
      if starts_with (strip line) "{"
      then elim (loads (strip line)) [ some s ↦ s | none ↦ rest ]
      else rest

  unfoldable pub get_delta_state : W → State × W
  unfolding splitlines state_of
  get_delta_state w =
      let (written, w1) = run_cmd cs.write_snippet w in
      let (result, w2) = run_cmd cs.submit_check w1 in (state_of (splitlines result.stdout), w2)

  unfoldable pub kill_container : String → W → Bool × W
  kill_container name w =
      let (result, w') = run_cmd ("docker kill " +++ name) w in (succeeded result, w')

  unfoldable pub start_container : String → W → Bool × W
  start_container name w =
      let (result, w') = run_cmd ("docker start " +++ name) w in (succeeded result, w')

  -- A round of `_spark_master_healthy`: the sleep stands in the handler.
  unfoldable pub health_round : W → Option (Unit {0}) × W
  health_round w =
      let (response, w') = get_url "http://localhost:8081" w in
      if is_ok response then (some tt, w') else (none, sleep 3 w')

  unfoldable pub spark_master_healthy : ℕ → ℕ → W → Option (Bool × W)
  unfolding health_round
  spark_master_healthy fuel timeout w = elim (poll now (now w + timeout) health_round fuel w) [
    | none ↦ none
    | some (found, w') ↦ some (elim found [ some _ ↦ true | none ↦ false ], w')
  ]

  -- Where no number is printed, the files are taken to be clean.
  unfoldable pub check_no_tmp_files : W → Bool × W
  unfolding strip splitlines to_int
  check_no_tmp_files w =
      let (result, w') = run_cmd cs.count_tmp w in
      (
        elim (last (splitlines (strip result.stdout))) [
          | none ↦ true
          | some line ↦ elim (to_int line) [ some n ↦ int_beq n (pos 0) | none ↦ true ]
        ],
        w',
      )

  -- Steps 5 and 6.
  unfoldable pub verify : State → Bool → Bool → W → Outcome × W
  unfolding check_no_tmp_files get_delta_state is_intact
  verify before killed restarted w =
      let (restarted_worker, w1) = run_cmd "docker restart spark-worker" w in
      let (no_tmp, w2) = check_no_tmp_files (sleep 10 w1) in
      let (after, w3) = get_delta_state w2 in
      (
        record {
          result = report (check_names killed restarted no_tmp (is_intact (baseline before) after));
          before = before;
          after = after;
        },
        w3,
      )

  -- Whether the master is healthy in time is logged, and checked nowhere.
  unfoldable pub run : ℕ → W → Option (Outcome × W)
  unfolding get_delta_state kill_container start_container spark_master_healthy verify
  run fuel w =
      let (before, w1) = get_delta_state w in
      let (copied, w2) = run_cmd "docker cp src/. spark-master:/app/src" w1 in
      let (submitted, w3) = run_cmd cs.submit_job w2 in
      let (killed, w4) = kill_container "spark-master" (sleep kill_delay_seconds w3) in
      let (restarted, w5) = start_container "spark-master" w4 in
      elim (spark_master_healthy fuel restart_wait_seconds w5) [
        | none ↦ none
        | some (healthy, w6) ↦ some (verify before killed restarted w6)
      ]
