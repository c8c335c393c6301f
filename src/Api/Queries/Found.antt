-- ===== src/Api/Queries/Found.antt =====
-- src/api/main.py: what `kafka_consumer_loop` stores, `get_recent_alerts` finds.
use aiops_distributed_log.Prelude.{◌≡◌, List, ◌∷◌, ◌++◌, length, string_eq}

-- `ORDER BY`: the rows stay the same.
pub record IsOrder {R : Type 0} (sort : List R → List R) : Type 0 where
  pub length-sort : (xs : List R) → length (sort xs) ≡ length xs
  pub keeps :
      (before : List R) (r : R) (after : List R)
      → (before' : List R) × (after' : List R) × (sort (before ++ r ∷ after)
          ≡ before' ++ r ∷ after')
