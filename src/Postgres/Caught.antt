-- ===== src/Postgres/Caught.antt =====
-- The shape that `_write_anomaly_alerts_pg` of src/processing/stream_processor.py and
-- insert_alerts.py share: a transaction of statements in which what a statement raises is caught,
-- and the loop goes on. It counts the statements that return.
use aiops_distributed_log.Prelude.{
  ℕ, ◌+◌, ◌≡◌, refl, ◌≤◌, ◌<◌, ◌⊎◌, inl, inr, true, false, List, [], ◌∷◌, Option, none, some, ok,
  err, arith, is_ok, length, nat_beq, if◌then◌else◌, Result-cases,
}
use aiops_distributed_log.Postgres.{Psycopg, IsPsycopg, apply_all}

module _ {T R : Type 0} (p : Psycopg T) (meaning : R → T → T) where
  open p use {Conn, connect, execute, commit, stored, pending, aborted}

  unfoldable pub execute_each : List R → Conn → ℕ → Conn × ℕ
  execute_each [] c n = (c, n)
  execute_each (r ∷ rs) c n =
      let (result, c') = execute (meaning r) c in
      execute_each rs c' (if is_ok result then n + 1 else n)

  -- The count at the end with the database afterwards, without a count where the commit raises.
  unfoldable pub commit_count : Conn × ℕ → Option ℕ × T
  commit_count (c, n) =
      let (result, t) = commit c in elim result [ ok _ ↦ (some n, t) | err e ↦ (none, t) ]

  -- What a count says of the database: all or nothing.
  abbrev pub AgreesWith : List R → T → Option ℕ × T → Type 0
  AgreesWith rows t (none, t') = t' ≡ t
  AgreesWith rows t (some n, t') =
      (n ≤ length rows) × (t' ≡ (if nat_beq n (length rows) then apply_all meaning rows t else t))

  module _ (is : IsPsycopg p) where
    stored-execute_each :
        (rows : List R) (c : Conn) (n : ℕ) → stored (execute_each rows c n).0 ≡ stored c
    unfolding execute_each
    stored-execute_each [] c n = refl
    stored-execute_each (r ∷ rs) c n =
        let (result, c') = execute (meaning r) c in
        ground (
          arith,
          is.stored-execute (meaning r) c,
          stored-execute_each rs c' (if is_ok result then n + 1 else n),
        )

    -- In an aborted transaction no statement counts.
    aborted-execute_each :
        (rows : List R) (c : Conn) (n : ℕ)
        → aborted c ≡ true
        → (aborted (execute_each rows c n).0 ≡ true) × ((execute_each rows c n).1 ≡ n)
    unfolding execute_each
    aborted-execute_each [] c n h = (h, refl)
    aborted-execute_each (r ∷ rs) c n h = elim (Result-cases (execute (meaning r) c).0) [
      | inl (_, went) ↦ ground (arith, is.execute-ok (meaning r) c)
      | inr (e, raised) ↦ ground (
        arith,
        is.execute-err (meaning r) c e,
        aborted-execute_each rs (execute (meaning r) c).1 n,
      )
    ]

    -- From a sound transaction the loop counts every row, or the transaction is aborted.
    sound-execute_each :
        (rows : List R) (c : Conn) (n : ℕ)
        → aborted c ≡ false
        → let (c', m) = execute_each rows c n in
          ((aborted c' ≡ false)
            × (m ≡ n + length rows)
            × (pending c' ≡ apply_all meaning rows (pending c)))
          ⊎ ((aborted c' ≡ true) × (m < n + length rows))
    unfolding execute_each
    sound-execute_each [] c n h = inl (h, omega arith, refl)
    sound-execute_each (r ∷ rs) c n h = elim (Result-cases (execute (meaning r) c).0) [
      | inl (_, went) ↦ ground (
        arith,
        is.execute-ok (meaning r) c,
        sound-execute_each rs (execute (meaning r) c).1 (n + 1),
      )
      | inr (e, raised) ↦ ground (
        arith,
        is.execute-err (meaning r) c e,
        aborted-execute_each rs (execute (meaning r) c).1 n,
      )
    ]

    -- On a fresh connection the commit keeps all rows, or none, and the count tells which.
    pub commit_count-AgreesWith :
        (rows : List R) (t : T) (c : Conn)
        → connect t ≡ ok c
        → AgreesWith rows t (commit_count (execute_each rows c 0))
    unfolding commit_count
    commit_count-AgreesWith rows t c connected =
        let c' = (execute_each rows c 0).0 in
        elim (Result-cases (commit c').0) [
          | inr (e, lost) ↦
              ground (arith, is.connect-ok t c, is.commit-err c' e, stored-execute_each rows c 0)
          | inl (_, done) ↦ ground (
            arith,
            is.connect-ok t c,
            is.commit-ok c',
            stored-execute_each rows c 0,
            sound-execute_each rows c 0,
          )
        ]
