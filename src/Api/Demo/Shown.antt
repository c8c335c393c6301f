-- ===== src/Api/Demo/Shown.antt =====
-- Alerts on the demo page of src/api/main.py: what the payloads that the gateway sends do to it.
use aiops_distributed_log.Prelude.{
  ◌+◌, ◌≡◌, refl, sym, ap, ◌∙◌, List, [], ◌∷◌, ◌++◌, String, Option, none, some, map, length, All,
  count_if, arith, append_assoc, append-nil, if◌then◌else◌, ◌==◌, string_eq,
}
use mathlib.Core.Path.{subst}
use aiops_distributed_log.Api.Json.{Json, field, end, null, num, str, obj}
use aiops_distributed_log.Api.Alerts.{AlertEvent, Validation}
use aiops_distributed_log.Api.Demo.{
  Node, Page, Browser, is_fatal, row_of, append_row, show_alert, on_data, on_message,
}
use aiops_distributed_log.Api.Demo.Feed.{append_row_lem}

-- `s || default` of a text that may be missing
abbrev pub text_or : String → Option String → String
text_or default none = default
text_or default (some s) = if s == "" then default else s

module _ {N : Type 0} where
  abbrev opt_str : Option String → Json N
  opt_str none = null
  opt_str (some s) = str s

  abbrev opt_num : Option N → Json N
  opt_num none = null
  opt_num (some n) = num n

  -- What `AlertEvent.model_dump_json` puts into its text.
  unfoldable pub event_json : AlertEvent N → Json N
  event_json a = obj (
      field "timestamp" (opt_str a.timestamp) (
        field "component" (opt_str a.component) (
          field "severity" (opt_str a.severity) (
            field "message" (opt_str a.message) (
              field "host" (opt_str a.host) (
                field "anomaly_score" (opt_num a.anomaly_score) (
                  field "cluster_id" (opt_num a.cluster_id)
                    (field "received_at" (str a.received_at) end))))))))

module _ (v : Validation) (b : Browser v.Number) where
  open v use {Number, model_dump_json}
  open b use {parse, to_upper}

  -- The messages of one socket, one after the other.
  unfoldable pub receive_all : List String → Page → Page
  receive_all [] p = p
  receive_all (ev ∷ evs) p = receive_all evs (on_message b ev p)

  -- `JSON.parse` reads what `model_dump_json` writes of the alerts.
  abbrev pub Reads : List (AlertEvent Number) → Type 0
  Reads = All (λ a. parse (model_dump_json a) ≡ some (event_json a))

  abbrev pub severity_of : AlertEvent Number → String
  severity_of a = to_upper (text_or "INFO" a.severity)

  abbrev pub row : AlertEvent Number → Node
  row a = row_of b (event_json a) (severity_of a) (text_or "" a.message)

  on_data-event :
      (a : AlertEvent Number) (p : Page)
      → on_data b (event_json a) p
        ≡ append_row (row a) (record p {
          total = p.total + 1;
          fatal = if is_fatal (severity_of a) then p.fatal + 1 else p.fatal;
        })
  unfolding on_data show_alert event_json
  on_data-event a p = ground arith

  -- The rows on top of a feed, the last alert first.
  abbrev pub rows_above : List (AlertEvent Number) → List Node → List Node
  rows_above [] feed = feed
  rows_above (a ∷ alerts) feed = rows_above alerts (row a ∷ feed)

  rows_above-append :
      (alerts : List (AlertEvent Number)) (xs ys : List Node)
      → rows_above alerts (xs ++ ys) ≡ rows_above alerts xs ++ ys
  rows_above-append [] xs ys = refl
  rows_above-append (a ∷ alerts) xs ys = rows_above-append alerts (row a ∷ xs) ys

  abbrev pub Shows : List (AlertEvent Number) → Page → Page → Type 0
  Shows alerts p p' =
      (p'.total ≡ p.total + length alerts)
      × (p'.fatal ≡ p.fatal + count_if (λ a. is_fatal (severity_of a)) alerts)
      × ((gone : List Node) × (p'.feed ++ gone ≡ rows_above alerts p.feed))

  received :
      (a : AlertEvent Number) (p : Page)
      → parse (model_dump_json a) ≡ some (event_json a)
      → on_message b (model_dump_json a) p
        ≡ append_row (row a) (record p {
          total = p.total + 1;
          fatal = if is_fatal (severity_of a) then p.fatal + 1 else p.fatal;
        })
  unfolding on_message
  received a p reads = rw (reads, on_message) (on_data-event a p)

  counted :
      (a : AlertEvent Number) (p : Page)
      → Shows (a ∷ []) p (
          append_row (row a) (record p {
            total = p.total + 1;
            fatal = if is_fatal (severity_of a) then p.fatal + 1 else p.fatal;
          }))
  unfolding append_row
  counted a p = (
    omega arith,
    ground arith,
    (append_row_lem (row a) (record p {
      total = p.total + 1;
      fatal = if is_fatal (severity_of a) then p.fatal + 1 else p.fatal;
    })).1,
  )

  -- What one payload does.
  on_message-event :
      (a : AlertEvent Number) (p : Page)
      → parse (model_dump_json a) ≡ some (event_json a)
      → Shows (a ∷ []) p (on_message b (model_dump_json a) p)
  on_message-event a p reads = subst (Shows (a ∷ []) p) (sym (received a p reads)) (counted a p)

  -- Every payload that a connected page receives and `JSON.parse` reads back is counted once, and once more as fatal if its
  -- severity, in capitals, is FATAL or ERROR; and the feed is the front of the rows of all of them,
  -- the newest first, above what was there.
  pub receive_all_lem :
      (alerts : List (AlertEvent Number)) (p : Page)
      → Reads alerts
      → Shows alerts p (receive_all (map model_dump_json alerts) p)
  unfolding receive_all
  receive_all_lem [] p reads = (omega arith, omega arith, ([], append-nil p.feed))
  receive_all_lem (a ∷ alerts) p reads =
      let p' = on_message b (model_dump_json a) p in
      let (total', fatal', (gone', feed')) = on_message-event a p reads.0 in
      let (total, fatal, (gone, feed)) = receive_all_lem alerts p' reads.1 in
      (
        omega arith,
        omega arith,
        (
          gone ++ gone',
          sym (append_assoc (receive_all (map model_dump_json alerts) p').feed gone gone')
              ∙ ap (λ t. t ++ gone') feed
              ∙ sym (rows_above-append alerts p'.feed gone')
              ∙ ap (rows_above alerts) feed',
        ),
      )
