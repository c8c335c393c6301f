-- ===== src/Scripts/AlertImport.antt =====
-- insert_alerts.py: the lines of `alerts.json` that are JSON objects go to `anomaly_alerts_pg`.
use aiops_distributed_log.Prelude.{
  ℕ, ◌+◌, ◌≡◌, refl, sym, ◌>>=◌, inl, inr, Bool, not, ◌&&◌, List, [], ◌∷◌, String, Option, none,
  some, Result, ok, err, arith, is_ok, if◌then◌else◌, ◌==◌, string_eq, Result-cases, Option-cases,
}
use mathlib.Core.Path.{subst}
use aiops_distributed_log.Postgres.{Psycopg, IsPsycopg}
use aiops_distributed_log.Postgres.Caught.{
  execute_each, commit_count, AgreesWith, commit_count-AgreesWith,
}
use aiops_distributed_log.Tables.Rows.{AlertRow, insert_alert}
use aiops_distributed_log.Api.Json.{Json, null, get}
use aiops_distributed_log.Chaos.Text.{strip, starts_with}

-- `json.loads`, Python's `float` and `int` of a value, and psycopg2's adaption of a value to a
-- column of texts, which raises for a dict.
pub record Values : Type 1 where
  pub Number : Type 0
  pub loads : String → Result (Json Number)
  pub float : Json Number → Result Number
  pub int : Json Number → Result Number
  pub adapt : Json Number → Result (Option String)

module _ (v : Values) where
  open v use {Number, loads, float, int, adapt}

  -- `f(value) if value is not None else None`
  abbrev pub unless_null : (Json Number → Result Number) → Json Number → Result (Option Number)
  unless_null f null = ok none
  unless_null f j = do n ← f j; ok (some n)

  -- `not line or not line.startswith('{')`, negated
  abbrev pub is_entry : String → Bool
  is_entry line = not (line == "") && starts_with line "{"

  -- The tuple of the statement, with the uuid drawn for the line.
  unfoldable pub tuple_of : String → String → Result (AlertRow Number)
  tuple_of uuid line = do
    alert ← loads line
    timestamp ← get alert "timestamp"
    component ← get alert "component"
    severity ← get alert "severity"
    message ← get alert "message"
    host ← get alert "host"
    anomaly_score ← get alert "anomaly_score"
    cluster_id ← get alert "cluster_id"
    anomaly_score' ← unless_null float anomaly_score
    cluster_id' ← unless_null int cluster_id
    timestamp' ← adapt timestamp
    component' ← adapt component
    severity' ← adapt severity
    message' ← adapt message
    host' ← adapt host
    ok (record {
      alert_id = uuid;
      event_time = timestamp';
      component = component';
      severity = severity';
      message = message';
      host = host';
      anomaly_score = anomaly_score';
      cluster_id = cluster_id';
    })

  -- A line with the uuid that it would draw: what reaches the server, if anything does.
  unfoldable pub statement_of : String × String → Option (AlertRow Number)
  unfolding strip tuple_of
  statement_of (uuid, raw) =
      let line = strip raw in
      if is_entry line then elim (tuple_of uuid line) [ ok row ↦ some row | err e ↦ none ] else none

  -- The rows of the lines that are entries.
  abbrev pub statements : List (String × String) → List (AlertRow Number)
  statements [] = []
  statements (l ∷ ls) = elim (statement_of l) [
    | none ↦ statements ls
    | some row ↦ row ∷ statements ls
  ]

  module _ (p : Psycopg (List (AlertRow Number))) where
    open p use {Conn, connect, execute, stored, commit}

    -- The loop, with its handler around each line.
    unfoldable pub import_lines : List (String × String) → Conn → ℕ → Conn × ℕ
    unfolding statement_of
    import_lines [] c count = (c, count)
    import_lines (l ∷ ls) c count = elim (statement_of l) [
      | none ↦ import_lines ls c count
      | some row ↦
          let (result, c') = execute (insert_alert row) c in
          import_lines ls c' (if is_ok result then count + 1 else count)
    ]

    -- `main`, where opening and decoding the file may raise after the connection is made: the count
    -- that is printed, if it is, and the table afterwards.
    unfoldable pub import_alerts :
        Result (List (String × String)) → List (AlertRow Number) → Option ℕ × List (AlertRow Number)
    unfolding import_lines commit_count
    import_alerts file table = elim (connect table) [
      | err e ↦ (none, table)
      | ok c ↦ elim file [
        | err e ↦ (none, stored c)
        | ok ls ↦ commit_count p insert_alert (import_lines ls c 0)
      ]
    ]

    import_lines-execute_each :
        (ls : List (String × String)) (c : Conn) (count : ℕ)
        → import_lines ls c count ≡ execute_each p insert_alert (statements ls) c count
    unfolding import_lines execute_each
    import_lines-execute_each [] c count = refl
    import_lines-execute_each (l ∷ ls) c count = elim (Option-cases (statement_of l)) [
      | inl skipped ↦ ground (arith, import_lines-execute_each ls c count)
      | inr (row, read) ↦
          let (result, c') = execute (insert_alert row) c in
          ground
            (arith, import_lines-execute_each ls c' (if is_ok result then count + 1 else count))
    ]

    import-commit_count :
        (ls : List (String × String)) (table : List (AlertRow Number)) (c : Conn)
        → connect table ≡ ok c
        → import_alerts (ok ls) table
          ≡ commit_count p insert_alert (execute_each p insert_alert (statements ls) c 0)
    unfolding import_alerts
    import-commit_count ls table c connected = ground (arith, import_lines-execute_each ls c 0)

    -- Lines that are no entries, are not JSON, or have a value that Python or the driver refuses do
    -- not matter. Of the others, all are stored and the printed count is their number, or a smaller
    -- count is printed and none is stored. Where nothing is printed, nothing is stored either.
    pub import_alerts_lem :
        (is : IsPsycopg p) (ls : List (String × String)) (table : List (AlertRow Number))
        → AgreesWith p insert_alert (statements ls) table (import_alerts (ok ls) table)
    unfolding import_alerts
    import_alerts_lem is ls table = elim (Result-cases (connect table)) [
      | inr (e, refused) ↦ ground arith
      | inl (c, connected) ↦
          subst (AgreesWith p insert_alert (statements ls) table)
            (sym (import-commit_count ls table c connected))
            (commit_count-AgreesWith p insert_alert is (statements ls) table c connected)
    ]
