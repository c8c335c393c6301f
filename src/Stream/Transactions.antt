-- ===== src/Stream/Transactions.antt =====
-- The shape that the PostgreSQL writers of src/processing/stream_processor.py share: a
-- transaction of statements in which an exception leaves the block before the commit.
use aiops_distributed_log.Prelude.{
  ◌≡◌, refl, inl, inr, false, List, [], ◌∷◌, Result, ok, err, arith, Result-cases,
}
use aiops_distributed_log.Postgres.{Psycopg, IsPsycopg, apply_all}

module _ {T R : Type 0} (p : Psycopg T) (meaning : R → T → T) where
  open p use {Conn, connect, execute, commit, stored, pending, aborted}

  -- `for row in rows: cur.execute(…)`: the first exception ends the loop.
  unfoldable pub execute_all : List R → Conn → Result (Unit {0}) × Conn
  execute_all [] c = (ok tt, c)
  execute_all (r ∷ rs) c =
      let (result, c') = execute (meaning r) c in
      elim result [ ok _ ↦ execute_all rs c' | err e ↦ (err e, c') ]

  -- Connect, the loop, commit, with the handler that logs: the result of the block, and the
  -- database afterwards. Without a commit the connection is dropped and nothing is stored.
  unfoldable pub transaction : List R → T → Result (Unit {0}) × T
  unfolding execute_all
  transaction rows t = elim (connect t) [
    | err e ↦ (err e, t)
    | ok c ↦
        let (result, c') = execute_all rows c in
        elim result [ err e ↦ (err e, stored c') | ok _ ↦ commit c' ]
  ]

  module _ (is : IsPsycopg p) where
    execute_all-ok :
        (rows : List R) (c : Conn)
        → aborted c ≡ false
        → (execute_all rows c).0 ≡ ok tt
        → (aborted (execute_all rows c).1 ≡ false)
          × (pending (execute_all rows c).1 ≡ apply_all meaning rows (pending c))
    unfolding execute_all
    execute_all-ok [] c h e = (h, refl)
    execute_all-ok (r ∷ rs) c h e = elim (Result-cases (execute (meaning r) c).0) [
      | inl (_, went) ↦
          let now = is.execute-ok (meaning r) c went in
          ground (arith, now, execute_all-ok rs (execute (meaning r) c).1)
      | inr (x, raised) ↦ ground arith
    ]

    stored-execute_all : (rows : List R) (c : Conn) → stored (execute_all rows c).1 ≡ stored c
    unfolding execute_all
    stored-execute_all [] c = refl
    stored-execute_all (r ∷ rs) c =
        ground
          (arith, is.stored-execute (meaning r) c, stored-execute_all rs (execute (meaning r) c).1)

    -- All or nothing: the block returns and the database has had every statement, in order, or
    -- it raises and the database is as it was.
    pub transaction_lem :
        (rows : List R) (t : T)
        → (transaction rows t).1
          ≡ elim (transaction rows t).0 [ ok _ ↦ apply_all meaning rows t | err e ↦ t ]
    unfolding transaction
    transaction_lem rows t = elim (Result-cases (connect t)) [
      | inr (e, refused) ↦ ground arith
      | inl (c, connected) ↦ elim (Result-cases (execute_all rows c).0) [
        | inr (e, raised) ↦ ground (arith, is.connect-ok t c, stored-execute_all rows c)
        | inl (_, went) ↦ elim (Result-cases (commit (execute_all rows c).1).0) [
          | inr (e, lost) ↦ ground (
            arith,
            is.connect-ok t c,
            is.commit-err (execute_all rows c).1 e,
            stored-execute_all rows c,
          )
          | inl (_, done) ↦
              ground (
                arith,
                is.connect-ok t c,
                is.commit-ok (execute_all rows c).1,
                execute_all-ok rows c,
              )
        ]
      ]
    ]
