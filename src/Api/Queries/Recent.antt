-- ===== src/Api/Queries/Recent.antt =====
-- src/api/main.py, `get_recent_alerts`: the statement that is put together from the filters, and
-- the rows that it selects.
use aiops_distributed_log.Prelude.{
  ℕ, zero, suc, ◌+◌, ◌≡◌, refl, Bool, true, false, ◌&&◌, List, [], ◌∷◌, ◌++◌, String, Option, none,
  some, Result, ok, err, arith, length, filter, all, take, ◌==◌, string_eq, if◌then◌else◌, ap,
}
use aiops_distributed_log.Api.Alerts.{AlertRow}
use aiops_distributed_log.Api.Queries.{Response, rows, in_range, respond, given}

pub data Column : Type 0 where
  component severity : Column

-- A value of `params`.
pub data Param : Type 0 where
  text : String → Param
  count : ℕ → Param

-- `conditions`, each `column = $i`, with `params`.
pub record Filters : Type 0 where
  pub conditions : List (Column × ℕ)
  pub params : List Param

-- The statement: `LIMIT $i` refers to the parameter that is appended last.
pub record Statement : Type 0 where
  pub conditions : List (Column × ℕ)
  pub params : List Param
  pub limit_at : ℕ

unfoldable pub add_filter : Column → Option String → Filters → Filters
add_filter c none f = f
add_filter c (some v) f =
    let params = f.params ++ text v ∷ [] in
    record { conditions = f.conditions ++ (c, length params) ∷ []; params = params }

abbrev pub no_filters : Filters
no_filters = record { conditions = []; params = [] }

abbrev upper_opt : (String → String) → Option String → Option String
upper_opt upper none = none
upper_opt upper (some s) = some (upper s)

-- `upper` is `str.upper`.
unfoldable pub recent_statement : (String → String) → ℕ → Option String → Option String → Statement
unfolding add_filter
recent_statement upper limit component' severity' =
    let f =
      add_filter severity (upper_opt upper (given severity'))
        (add_filter component (given component') no_filters) in
    let params = f.params ++ count limit ∷ [] in
    record { conditions = f.conditions; params = params; limit_at = length params }

-- `$i`
abbrev pub param : List Param → ℕ → Option Param
param [] i = none
param (p ∷ ps) zero = none
param (p ∷ ps) (suc zero) = some p
param (p ∷ ps) (suc (suc i)) = param ps (suc i)

abbrev pub column : {N : Type 0} → Column → AlertRow N → Option String
column component r = r.component
column severity r = r.severity

-- `column = value` in a WHERE clause: NULL is equal to nothing.
abbrev pub sql_eq : Option String → Option Param → Bool
sql_eq (some a) (some (text b)) = a == b
sql_eq (some a) (some (count n)) = false
sql_eq (some a) none = false
sql_eq none p = false

abbrev pub holds : {N : Type 0} → List Param → AlertRow N → Column × ℕ → Bool
holds params r (c, i) = sql_eq (column c r) (param params i)

-- The rows of the statement; an error where `LIMIT` is given no number.
unfoldable pub execute :
    {N : Type 0}
    → (List (AlertRow N) → List (AlertRow N))
    → Statement
    → List (AlertRow N)
    → Result (List (AlertRow N))
execute sort s table = elim (param s.params s.limit_at) [
  | some (count n) ↦ ok (take n (sort (filter (λ r. all (holds s.params r) s.conditions) table)))
  | some (text t) ↦ err "DataError"
  | none ↦ err "UndefinedParameterError"
]

unfoldable pub get_recent_alerts :
    {N : Type 0}
    → (String → String)
    → (List (AlertRow N) → List (AlertRow N))
    → Bool
    → ℕ
    → Option String
    → Option String
    → List (AlertRow N)
    → Response (List (AlertRow N))
unfolding recent_statement execute
get_recent_alerts upper sort has_pool limit component' severity' table =
    respond (in_range 1 500 limit) has_pool
      (execute sort (recent_statement upper limit component' severity') table)

-- What the filters ask of a row.
abbrev pub asks : {N : Type 0} → (Option String) → (AlertRow N → Option String) → AlertRow N → Bool
asks none field r = true
asks (some v) field r = elim (field r) [ none ↦ false | some w ↦ w == v ]

module _ {N : Type 0} (upper : String → String) where
  abbrev pub wanted : Option String → Option String → AlertRow N → Bool
  wanted component' severity' r =
      asks (given component') (λ x. x.component) r
      && asks (upper_opt upper (given severity')) (λ x. x.severity) r

filter-ext :
    {N : Type 0} (p q : AlertRow N → Bool) (xs : List (AlertRow N))
    → ((r : AlertRow N) → p r ≡ q r)
    → filter p xs ≡ filter q xs
filter-ext p q [] h = refl
filter-ext p q (x ∷ xs) h = ground (arith, h x, filter-ext p q xs h)

-- The statement of two optional values.
abbrev statement : ℕ → Option String → Option String → Statement
unfolding add_filter
statement limit a b =
    let f = add_filter severity b (add_filter component a no_filters) in
    let params = f.params ++ count limit ∷ [] in
    record { conditions = f.conditions; params = params; limit_at = length params }

conditions_lem :
    {N : Type 0} (limit : ℕ) (a b : Option String) (r : AlertRow N)
    → let st = statement limit a b in
      all (holds st.params r) st.conditions
      ≡ (asks a (λ x. x.component) r && asks b (λ x. x.severity) r)
unfolding add_filter
conditions_lem limit none none r = refl
conditions_lem limit none (some b) r = ground arith
conditions_lem limit (some a) none r = ground arith
conditions_lem limit (some a) (some b) r = ground arith

limit_lem :
    (limit : ℕ) (a b : Option String)
    → let st = statement limit a b in param st.params st.limit_at ≡ some (count limit)
unfolding add_filter
limit_lem limit none none = refl
limit_lem limit none (some b) = refl
limit_lem limit (some a) none = refl
limit_lem limit (some a) (some b) = refl

-- `$1` to `$n`, in the order of `params`, with `n` last for the limit.
abbrev pub AreNumbered : ℕ → List (Column × ℕ) → Type 0
AreNumbered n [] = Unit
AreNumbered n ((c, i) ∷ rest) = (i ≡ n) × AreNumbered (n + 1) rest

numbered_lem :
    (limit : ℕ) (a b : Option String)
    → let st = statement limit a b in
      AreNumbered 1 st.conditions
      × (st.limit_at ≡ length st.conditions + 1)
      × (length st.params ≡ st.limit_at)
unfolding add_filter
numbered_lem limit none none = omega arith
numbered_lem limit none (some b) = omega arith
numbered_lem limit (some a) none = omega arith
numbered_lem limit (some a) (some b) = omega arith

-- The placeholders of the statement are $1, $2, … in the order of its parameters, and the limit
-- has the last one, whichever filters are given.
pub recent_statement-numbered :
    (upper : String → String) (limit : ℕ) (c s : Option String)
    → let st = recent_statement upper limit c s in
      AreNumbered 1 st.conditions
      × (st.limit_at ≡ length st.conditions + 1)
      × (length st.params ≡ st.limit_at)
unfolding recent_statement
recent_statement-numbered upper limit c s = numbered_lem limit (given c) (upper_opt upper (given s))

module _ {N : Type 0} (upper : String → String) (sort : List (AlertRow N) → List (AlertRow N)) where
  execute_lem :
      (st : Statement) (n : ℕ) (p : AlertRow N → Bool) (table : List (AlertRow N))
      → param st.params st.limit_at ≡ some (count n)
      → ((r : AlertRow N) → all (holds st.params r) st.conditions ≡ p r)
      → execute sort st table ≡ ok (take n (sort (filter p table)))
  unfolding execute
  execute_lem st n p table h k =
      rw (h, execute) (ap (λ xs. ok (take n (sort xs))) (filter-ext _ p table k))

  -- The endpoint against its description: a limit outside 1 to 500 is refused, without a pool
  -- there is no answer, and otherwise come the first `limit` rows, in the server's order, of
  -- those with the component given and with the severity given, in capitals. An empty filter
  -- counts as none. The statement never fails for its own parameters.
  pub get_recent_alerts_lem :
      (has_pool : Bool) (limit : ℕ) (c s : Option String) (table : List (AlertRow N))
      → get_recent_alerts upper sort has_pool limit c s table ≡ (
          if in_range 1 500 limit
          then if has_pool
            then rows (take limit (sort (filter (wanted upper c s) table)))
            else Response.unavailable
          else Response.unprocessable)
  unfolding get_recent_alerts recent_statement
  get_recent_alerts_lem has_pool limit c s table =
      let a = given c in
      let b = upper_opt upper (given s) in
      let executed =
        execute_lem (recent_statement upper limit c s) limit (wanted upper c s) table
          (limit_lem limit a b) (conditions_lem limit a b) in
      rw executed refl
