-- ===== src/Chaos/Delta/Snippet.antt =====
-- chaos/scenarios/delta_safety.py: `_PYSPARK_SNIPPET`, and what `_get_delta_state` reads of the output.
use aiops_distributed_log.Prelude.{
  ℕ, ◌≡◌, true, false, List, [], ◌∷◌, ◌++◌, String, Option, none, some, Result, ok, err, pos, All,
}
use aiops_distributed_log.Chaos.Host.{Host}
use aiops_distributed_log.Chaos.Text.{strip, splitlines, starts_with}
use aiops_distributed_log.Chaos.Delta.{State, unreadable, Commands, state_of, get_delta_state}

-- The Delta table as the script finds it: the versions of `history(1).collect()` and the count of
-- its rows, or what they raise.
pub record Table : Type 0 where
  pub history : Result (List ℕ)
  pub rows : Result ℕ

-- `history[0]["version"] if history else 0`
abbrev pub version_of : List ℕ → ℕ
version_of [] = 0
version_of (v ∷ vs) = v

-- The object that the script prints: the state, with the text of an exception.
unfoldable pub measure_table : Table → State × Option String
measure_table t = elim t.history [
  | err e ↦ (unreadable, some e)
  | ok history ↦ elim t.rows [
    | err e ↦ (unreadable, some e)
    | ok count ↦ (record { version = pos (version_of history); row_count = pos count }, none)
  ]
]

-- `json.dumps` of the script and `json.loads` of the scenario; `table` is the table in a state.
module _ {W : Type 0} (h : Host W) (cs : Commands) (loads : String → Option State) where
  open h use {run_cmd}

  -- The submission of the script prints lines that are no objects, and then the object.
  pub record IsSpark (dumps : State × Option String → String) (table : W → Table) : Type 0 where
    pub chatter : W → List String
    pub rest : W → List String
    pub is_chatter : (w : W) → All (λ l. starts_with (strip l) "{" ≡ false) (chatter w)
    pub prints :
        (w : W)
        → splitlines (run_cmd cs.submit_check w).0.stdout
          ≡ chatter w ++ (dumps (measure_table (table w)) ∷ rest w)
    pub is_object : (w : W) → starts_with (strip (dumps (measure_table (table w)))) "{" ≡ true
    pub loads-dumps :
        (w : W) → loads (strip (dumps (measure_table (table w)))) ≡ some (measure_table (table w)).0

  state_of-append :
      (chatter : List String) (line : String) (rest : List String) (s : State)
      → All (λ l. starts_with (strip l) "{" ≡ false) chatter
      → starts_with (strip line) "{" ≡ true
      → loads (strip line) ≡ some s
      → state_of h cs loads (chatter ++ (line ∷ rest)) ≡ s
  unfolding state_of
  state_of-append [] line rest s plain object read = rw (object, read)
  state_of-append (l ∷ ls) line rest s (p, ps) object read =
      rw (p, state_of-append ls line rest s ps object read)

  -- The state that the scenario reads is the one that the script has measured, on the table as it is
  -- when the script is submitted.
  pub get_delta_state_lem :
      (dumps : State × Option String → String) (table : W → Table)
      → IsSpark dumps table
      → (w : W)
      → let w1 = (run_cmd cs.write_snippet w).1 in
        get_delta_state h cs loads w
        ≡ ((measure_table (table w1)).0, (run_cmd cs.submit_check w1).1)
  unfolding get_delta_state
  get_delta_state_lem dumps table spark w =
      let w1 = (run_cmd cs.write_snippet w).1 in
      let r = measure_table (table w1) in
      rw (
        spark.prints w1,
        state_of-append (spark.chatter w1) (dumps r) (spark.rest w1) r.0 (spark.is_chatter w1)
            (spark.is_object w1) (spark.loads-dumps w1),
      )
