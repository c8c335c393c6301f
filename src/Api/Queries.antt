-- ===== src/Api/Queries.antt =====
-- src/api/main.py, the four REST endpoints that read PostgreSQL. The meaning of a statement's text
-- over the rows of its table is written out; the order that the server's sort gives and its
-- rounding of a quotient are parameters.
pub mod Recent
pub mod Found
pub mod Summary
pub mod Tests
use aiops_distributed_log.Prelude.{
  ℕ, Bool, true, false, ◌&&◌, leb, Result, ok, err, String, Option, none, some, ◌==◌, string_eq,
  if◌then◌else◌,
}

-- What a client gets: a refused parameter (422), no pool (503), a failed statement (500), or rows.
pub data Response {ℓ} (A : Type ℓ) : Type ℓ where
  unprocessable unavailable failed : Response A
  rows : A → Response A

-- `Query(…, ge=lo, le=hi)`
abbrev pub in_range : ℕ → ℕ → ℕ → Bool
in_range lo hi n = leb lo n && leb n hi

abbrev pub fetched {ℓ} : {A : Type ℓ} → Result A → Response A
fetched (ok a) = rows a
fetched (err e) = failed

-- The frame of every endpoint: validation, the pool, the statement.
abbrev pub respond {ℓ} : {A : Type ℓ} → Bool → Bool → Result A → Response A
respond valid has_pool result =
    if valid then if has_pool then fetched result else unavailable else unprocessable

-- `if component:` of an optional text
abbrev pub given : Option String → Option String
given none = none
given (some s) = if s == "" then none else some s
