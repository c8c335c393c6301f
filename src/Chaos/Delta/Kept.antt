-- ===== src/Chaos/Delta/Kept.antt =====
-- The scenario of chaos/scenarios/delta_safety.py on a Spark master that runs its script: what a
-- passed run shows of the table.
use aiops_distributed_log.Prelude.{
  ℕ, ◌≡◌, ◌≤◌, ◌⊎◌, inl, inr, refl, sym, ap, ◌∙◌, true, String, List, Option, some, ok, err, pos,
  negsuc, int_beq, int_geb, Result-cases, arith,
}
use aiops_distributed_log.Chaos.Host.{Host, IsHost}
use aiops_distributed_log.Chaos.Delta.{
  State, unreadable, baseline, Commands, get_delta_state, run, Outcome,
}
use aiops_distributed_log.Chaos.Delta.Snippet.{
  Table, measure_table, version_of, IsSpark, get_delta_state_lem,
}
use aiops_distributed_log.Chaos.Delta.Safety.{safety-passed}

-- A table whose newest version is `v`, with `n` rows.
abbrev pub Holds : Table → ℕ → ℕ → Type 0
Holds t v n =
    ((history : List ℕ) × (t.history ≡ ok history) × (version_of history ≡ v)) × (t.rows ≡ ok n)

-- A table of which the history or the count raises.
abbrev pub IsUnreadable : Table → Type 0
IsUnreadable t = ((e : String) × (t.history ≡ err e)) ⊎ ((e : String) × (t.rows ≡ err e))

measure_table-Holds :
    (t : Table) (v n : ℕ)
    → Holds t v n
    → (measure_table t).0 ≡ record { version = pos v; row_count = pos n }
unfolding measure_table
measure_table-Holds t v n ((history, found, newest), counted) = rw (found, counted, newest)

readable :
    (t : Table)
    → (IsUnreadable t × ((measure_table t).0 ≡ unreadable)) ⊎ ((v : ℕ) × (n : ℕ) × Holds t v n)
unfolding measure_table
readable t = elim (Result-cases t.history) [
  | inr (e, raised) ↦ inl (inl (e, raised), rw raised)
  | inl (history, found) ↦ elim (Result-cases t.rows) [
    | inr (e, raised) ↦ inl (inr (e, raised), rw (found, raised))
    | inl (n, counted) ↦ inr (version_of history, n, ((history, found, refl), counted))
  ]
]

kept :
    (a n b m : ℕ) (s s' : State)
    → s ≡ record { version = pos a; row_count = pos n }
    → s' ≡ record { version = pos b; row_count = pos m }
    → (int_beq s'.version (negsuc 0) ≡ true)
      ⊎ ((int_geb s'.version (baseline s).version ≡ true)
          × (int_geb s'.row_count (baseline s).row_count ≡ true))
    → (a ≤ b) × (n ≤ m)
kept a n b m s s' e e' judged =
    let v : s.version ≡ pos a = ap (λ x. x.version) e in
    let r : s.row_count ≡ pos n = ap (λ x. x.row_count) e in
    let v' : s'.version ≡ pos b = ap (λ x. x.version) e' in
    let r' : s'.row_count ≡ pos m = ap (λ x. x.row_count) e' in ground arith

module _ {W : Type 0} (h : Host W) (is : IsHost h) (cs : Commands) (loads : String → Option State)
    (dumps : State × Option String → String) (table : W → Table)
    (spark : IsSpark h cs loads dumps table) where
  open h use {run_cmd}

  -- On a Spark master that runs the script, a run that passes and has found a version and rows of the
  -- table at its start has read the table again in a last state `v`: there its version and its rows are
  -- not below those, or one of the two could not be read.
  pub table_kept :
      (fuel : ℕ) (w w' : W) (o : Outcome) (version rows : ℕ)
      → run h cs loads fuel w ≡ some (o, w')
      → o.result.passed ≡ true
      → Holds (table (run_cmd cs.write_snippet w).1) version rows
      → (v : W) × (w' ≡ (run_cmd cs.submit_check v).1)
        × (IsUnreadable (table v)
            ⊎ ((version' : ℕ) × (rows' : ℕ) × Holds (table v) version' rows'
                × (version ≤ version')
                × (rows ≤ rows')))
  table_kept fuel w w' o version rows e p at_start =
      let (killed, restarted, (u, last), judged) = safety-passed h is cs loads fuel w o e p in
      let v = (run_cmd cs.write_snippet u).1 in
      let read = get_delta_state_lem h cs loads dumps table spark u in
      let before =
        ap (λ r. r.0) (get_delta_state_lem h cs loads dumps table spark w)
        ∙ measure_table-Holds (table (run_cmd cs.write_snippet w).1) version rows at_start in
      let after : o.after ≡ (measure_table (table v)).0 =
        sym (ap (λ r. r.0) last) ∙ ap (λ r. r.0) read in
      let end : w' ≡ (run_cmd cs.submit_check v).1 =
        sym (ap (λ r. r.1) last) ∙ ap (λ r. r.1) read in
      (
        v,
        end,
        elim (readable (table v)) [
          | inl (broken, _) ↦ inl broken
          | inr (version', rows', held) ↦
              let (more, as_many) =
                kept version rows version' rows' (get_delta_state h cs loads w).0 o.after before
                  (after ∙ measure_table-Holds (table v) version' rows' held) judged in
              inr (version', rows', held, more, as_many)
        ],
      )
