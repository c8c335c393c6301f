-- ===== src/Stream/Train.antt =====
-- src/processing/stream_processor.py, `train_model`: fit the two models on a batch, save them,
-- and choose the cluster that counts as anomalous. Spark ML is the interface `Ml`.
pub mod Choice
use aiops_distributed_log.Prelude.{
  ◌≡◌, ℕ, ◌+◌, ◌*◌, Bool, true, false, not, List, [], ◌∷◌, Option, none, some, String, Result, ok,
  err, ◌>>=◌, ltb, nat_eq, map, length, if◌then◌else◌,
}
use aiops_distributed_log.Tables.{group_by}
use aiops_distributed_log.Stream.{Event}

pub record Ml : Type 1 where
  pub Nlp : Type 0
  pub Km : Type 0
  pub Vector : Type 0
  pub fit_nlp : List Event → Result Nlp
  pub vectorize : Nlp → List Event → Result (List (Event × Vector))
  pub fit_km : List (Event × Vector) → Result Km
  -- the column `cluster`
  pub predict : Km → List (Event × Vector) → Result (List (Event × ℕ))
  pub save : Nlp → Km → Result (Unit {0})

-- Spark's transformers add a column to each row, and drop none.
pub record IsMl (ml : Ml) : Type 0 where
  pub vectorize-rows :
      (nlp : ml.Nlp) (batch : List Event) (out : List (Event × ml.Vector))
      → ml.vectorize nlp batch ≡ ok out
      → map (λ r. r.0) out ≡ batch
  pub predict-rows :
      (km : ml.Km) (rows : List (Event × ml.Vector)) (out : List (Event × ℕ))
      → ml.predict km rows ≡ ok out
      → map (λ r. r.0) out ≡ map (λ r. r.0) rows

-- `F.avg` of the labels: their sum and how many are not null. Of none the average is null.
pub record Density : Type 0 where
  pub total : ℕ
  pub labelled : ℕ

module _ {R : Type 0} (label : R → Option ℕ) where
  abbrev pub add_label : Option ℕ → Density → Density
  add_label none d = d
  add_label (some l) d = record { total = l + d.total; labelled = 1 + d.labelled }

  abbrev pub density : List R → Density
  density [] = record { total = 0; labelled = 0 }
  density (r ∷ rs) = add_label (label r) (density rs)

-- Whether the first average comes strictly before the second under `F.desc`: nulls come last.
abbrev pub denser : Density → Density → Bool
denser a b =
    if ltb 0 a.labelled
    then if ltb 0 b.labelled then ltb (b.total * a.labelled) (a.total * b.labelled) else true
    else false

-- The first row of an ordered collection of groups: of equals the one that came first.
abbrev pub first_by {ℓ} : {A : Type ℓ} → (A → A → Bool) → A → List A → A
first_by before best [] = best
first_by before best (g ∷ gs) = first_by before (if before g best then g else best) gs

-- `rows[0]`
abbrev pub head_by {ℓ} : {A : Type ℓ} → (A → A → Bool) → List A → Result A
head_by before [] = err "IndexError"
head_by before (g ∷ gs) = ok (first_by before g gs)

module _ {R : Type 0} (label : R → Option ℕ) (cluster : R → ℕ) where
  -- The clusters with the densities of their rows.
  unfoldable pub densities : List R → List (ℕ × Density)
  densities rows = map (λ g. (g.0, density label g.1)) (group_by cluster rows)

  unfoldable pub sizes : List R → List (ℕ × ℕ)
  sizes rows = map (λ g. (g.0, length g.1)) (group_by cluster rows)

  -- By the labels, if the frame has the column, or else the smallest cluster.
  unfoldable pub choose_cluster : Bool → List R → Result ℕ
  unfolding densities sizes
  choose_cluster true rows = do best ← head_by (λ a b. denser a.1 b.1) (densities rows); ok best.0
  choose_cluster false rows = do best ← head_by (λ a b. ltb a.1 b.1) (sizes rows); ok best.0

module _ (ml : Ml) where
  open ml use {Nlp, Km, fit_nlp, vectorize, fit_km, predict, save}

  -- What saving raises is logged and dropped.
  abbrev pub try_save : Nlp → Km → Result (Unit {0})
  try_save nlp km = elim (save nlp km) [ ok _ ↦ ok tt | err e ↦ ok tt ]

  unfoldable pub train_model : List Event → Result (Nlp × Km × ℕ)
  unfolding choose_cluster
  train_model sample = do
    nlp ← fit_nlp sample
    vectorized ← vectorize nlp sample
    km ← fit_km vectorized
    _ ← try_save nlp km
    scored ← predict km vectorized
    anomaly_cluster ← choose_cluster (λ r. r.0.label_original) (λ r. r.1) true scored
    ok (nlp, km, anomaly_cluster)
