-- ===== src/Tables.antt =====
-- `GROUP BY`, of the SQL texts and of the data frames: the groups of a list of rows by a key.
-- The order of the groups is that of their first rows; the program relies on no order but
-- where it sorts.
pub mod Groups
pub mod Order
pub mod Rows
use aiops_distributed_log.Prelude.{
  Bool, Option, none, some, List, [], ◌∷◌, ◌++◌, Eq, ◌==◌, if◌then◌else◌, map, ℕ,
}

module _ {ℓ κ} {K : Type ℓ} {R : Type κ} ⦃e : Eq K⦄ where
  unfoldable pub add_row : K → R → List (K × List R) → List (K × List R)
  add_row k r [] = (k, r ∷ []) ∷ []
  add_row k r ((j, rs) ∷ gs) = if j == k then (j, rs ++ r ∷ []) ∷ gs else (j, rs) ∷ add_row k r gs

  unfoldable pub group_from : (R → K) → List (K × List R) → List R → List (K × List R)
  unfolding add_row
  group_from key gs [] = gs
  group_from key gs (r ∷ rs) = group_from key (add_row (key r) r gs) rs

  unfoldable pub group_by : (R → K) → List R → List (K × List R)
  unfolding group_from
  group_by key = group_from key []

  -- The rows of one group; none where there is no such group.
  abbrev pub rows_of : K → List (K × List R) → List R
  rows_of k [] = []
  rows_of k ((j, rs) ∷ gs) = if j == k then rs else rows_of k gs

  abbrev pub keys : List (K × List R) → List K
  keys [] = []
  keys ((j, rs) ∷ gs) = j ∷ keys gs
