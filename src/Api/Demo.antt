-- ===== src/Api/Demo.antt =====
-- src/api/main.py, the script of `DEMO_HTML`: the page that shows the alerts live. A text in the
-- page stands for the HTML that it is put into.
pub mod Feed
pub mod Life
pub mod Shown
pub mod Tests
use Prim.Native.String.{[] as ε, ◌∷◌ as ◌◁◌}
use aiops_distributed_log.Prelude.{
  ℕ, zero, suc, ◌+◌, ◌-◌, ◌<◌, ◌≡◌, Bool, true, false, ◌||◌, List, [], ◌∷◌, String, Option, none,
  some, length, ltb, count_if, ◌==◌, string_eq, if◌then◌else◌,
}
use aiops_distributed_log.Api.Json.{Json, null, str, obj, lookup, or_else}

-- A child of the element `feed`: white space of the page's source, or an element.
pub data Node : Type 0 where
  blank : Node
  notice : String → Node
  alert_row : (cls ts component sev msg : String) → Node

abbrev pub is_element : Node → Bool
is_element blank = false
is_element (notice s) = true
is_element (alert_row cls ts component sev msg) = true

pub data Badge : Type 0 where
  disconnected live failed reconnecting : Badge

-- The variables and the elements that the script changes; the feed with its first child first.
-- `connecting` and `opened` count the sockets that are not closed, `timers` the pending calls of
-- `setTimeout(connect, 5000)`, `heartbeats` the intervals, which nothing clears.
pub record Page : Type 0 where
  pub total : ℕ
  pub fatal : ℕ
  pub feed : List Node
  pub badge : Badge
  pub since : Option String
  pub connecting : ℕ
  pub opened : ℕ
  pub timers : ℕ
  pub heartbeats : ℕ

-- The page after the script has run, which ends with `connect()`.
abbrev pub loaded : Page
loaded = record {
  total = 0;
  fatal = 0;
  feed = blank ∷ notice "Connecting to alert stream…" ∷ blank ∷ [];
  badge = disconnected;
  since = none;
  connecting = 1;
  opened = 0;
  timers = 0;
  heartbeats = 0;
}

-- `feed.children.length`
abbrev pub children : List Node → ℕ
children = count_if is_element

-- `feed.removeChild(feed.lastChild)`
abbrev pub remove_last : List Node → List Node
remove_last [] = []
remove_last (n ∷ []) = []
remove_last (n ∷ m ∷ ns) = n ∷ remove_last (m ∷ ns)

-- `while (feed.children.length > 200)`, with fuel for each child.
unfoldable pub trim : ℕ → List Node → List Node
trim zero ns = ns
trim (suc fuel) ns =
    let rest = trim fuel (remove_last ns) in if ltb 200 (children ns) then rest else ns

unfoldable pub append_row : Node → Page → Page
append_row n p = let feed' = n ∷ p.feed in record p { feed = trim (length feed') feed' }

-- `clearFeed`
abbrev pub clear_feed : Page → Page
clear_feed p = record p { feed = [] }

-- `s.substring(0, n)`, for characters of one UTF-16 unit
unfoldable pub substring : ℕ → String → String
substring zero s = ε
substring (suc n) ε = ε
substring (suc n) (c ◁ s) = c ◁ substring n s

abbrev pub row_class : String → String
row_class sev =
    if sev == "FATAL"
    then "fatal"
    else if sev == "ERROR"
    then "error"
    else if sev == "WARN"
    then "warn"
    else "info"

abbrev pub is_fatal : String → Bool
is_fatal sev = sev == "FATAL" || sev == "ERROR"

-- What the script uses of the browser: `JSON.parse`, where `none` is a `SyntaxError`, `toUpperCase`,
-- and a value inside a template.
pub record Browser (Number : Type 0) : Type 0 where
  pub is_zero : Number → Bool
  pub parse : String → Option (Json Number)
  pub to_upper : String → String
  pub show : Json Number → String

module _ {Number : Type 0} (b : Browser Number) where
  open b use {is_zero, parse, to_upper, show}

  -- `data.key`, of a value other than null
  abbrev pub prop : Json Number → String → Json Number
  prop (obj fields) key = lookup key fields
  prop _ key = null

  -- A call of a text's method: of any other value it raises, which ends the handler.
  abbrev pub with_text : Json Number → (String → Page) → Page → Page
  with_text (str s) rest p = rest s
  with_text _ rest p = p

  abbrev pub row_of : Json Number → String → String → Node
  row_of data' sev message =
      let ts =
        or_else is_zero (prop data' "timestamp")
          (or_else is_zero (prop data' "received_at") (str "")) in
      alert_row (row_class sev) (show ts)
        (show (or_else is_zero (prop data' "component") (str "?"))) sev (substring 200 message)

  -- From the severity on.
  unfoldable pub show_alert : Json Number → String → Page → Page
  show_alert data' sev p =
      let p' = record p { fatal = if is_fatal sev then p.fatal + 1 else p.fatal } in
      with_text (or_else is_zero (prop data' "message") (str ""))
        (λ message. append_row (row_of data' sev message) p') p'

  -- `data.type === 'connected'`
  abbrev pub is_greeting : Json Number → Bool
  is_greeting (str s) = s == "connected"
  is_greeting _ = false

  -- `ws.onmessage`
  unfoldable pub on_data : Json Number → Page → Page
  unfolding show_alert
  on_data null p = p
  on_data data' p =
      if is_greeting (prop data' "type")
      then append_row (notice (show (prop data' "message"))) p
      else let p' = record p { total = p.total + 1 } in
        with_text (or_else is_zero (prop data' "severity") (str "INFO"))
          (λ sev. show_alert data' (to_upper sev) p') p'

  unfoldable pub on_message : String → Page → Page
  unfolding on_data
  on_message ev p = elim (parse ev) [ none ↦ p | some data' ↦ on_data data' p ]

  -- `ws.onopen`, `ws.onerror` and `ws.onclose`
  unfoldable pub on_open : String → Page → Page
  on_open now p =
      let p' =
        append_row (notice "✅ Stream connected.") (record p { badge = live; since = some now }) in
      record p' { heartbeats = p'.heartbeats + 1 }

  abbrev pub on_error : Page → Page
  on_error p = record p { badge = failed }

  unfoldable pub on_close : Page → Page
  on_close p =
      let p' =
        append_row (notice "⚠ Stream disconnected. Reconnecting in 5s…")
          (record p { badge = reconnecting }) in
      record p' { timers = p'.timers + 1 }

  -- What can happen next: the browser fires events of sockets that are not closed and timers that
  -- are set, and the user presses the button.
  pub data Step : Page → Page → Type 0 where
    opens :
        (p : Page) (now : String)
        → 0 < p.connecting
        → Step p (on_open now (record p { connecting = p.connecting - 1; opened = p.opened + 1 }))
    receives : (p : Page) (ev : String) → 0 < p.opened → Step p (on_message ev p)
    fails : (p : Page) → 0 < p.connecting + p.opened → Step p (on_error p)
    closes : (p : Page) → 0 < p.opened → Step p (on_close (record p { opened = p.opened - 1 }))
    gives_up :
        (p : Page)
        → 0 < p.connecting
        → Step p (on_close (record p { connecting = p.connecting - 1 }))
    reconnects :
        (p : Page)
        → 0 < p.timers
        → Step p (record p { timers = p.timers - 1; connecting = p.connecting + 1 })
    clears : (p : Page) → Step p (clear_feed p)

  pub data Reach (p : Page) : Page → Type 0 where
    here : Reach p p
    next : {q r : Page} → Reach p q → Step q r → Reach p r
