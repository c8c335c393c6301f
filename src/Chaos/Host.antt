-- ===== src/Chaos/Host.antt =====
-- The host that the scripts of chaos/ and scripts/ run on: its clock, `subprocess.run` and
-- `urlopen`. A state `W` is whatever a call can depend on; calls return the next state.
use aiops_distributed_log.Prelude.{
  ℕ, ◌+◌, ◌≤◌, Bool, nat_beq, String, Option, none, List, Result, all,
}

-- `subprocess.CompletedProcess`, less the error output, which is only logged.
pub record Completed : Type 0 where
  pub returncode : ℕ
  pub stdout : String

abbrev pub succeeded : Completed → Bool
succeeded c = nat_beq c.returncode 0

pub record Host (W : Type 0) : Type 0 where
  -- `time.time()`, in whole seconds
  pub now : W → ℕ
  pub sleep : ℕ → W → W
  pub run_cmd : String → W → Completed × W
  -- `urlopen(url)`: the body, or what it raises
  pub get_url : String → W → Result String × W

-- The clock: a sleep takes at least its time, and nothing turns the clock back.
pub record IsHost {W : Type 0} (h : Host W) : Type 0 where
  pub now-sleep : (n : ℕ) (w : W) → h.now w + n ≤ h.now (h.sleep n w)
  pub now-run_cmd : (c : String) (w : W) → h.now w ≤ h.now (h.run_cmd c w).1
  pub now-get_url : (u : String) (w : W) → h.now w ≤ h.now (h.get_url u w).1

-- What `run()` of a scenario returns, less its metrics.
pub record Report : Type 0 where
  pub passed : Bool
  pub checks : List (String × Bool)
  pub error : Option String

-- `passed = all(checks.values())`
abbrev pub report : List (String × Bool) → Report
report checks' = record { passed = all (λ c. c.1) checks'; checks = checks'; error = none }
