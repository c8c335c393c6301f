-- ===== src/Stream/Train/Choice.antt =====
-- The cluster that `train_model` of src/processing/stream_processor.py chooses.
use native.Mathlib.Nat.{le_of_mul-le-mul_right, mul-le-mul_right}
use mathlib.Core.Path.{subst}
use aiops_distributed_log.Prelude.{
  ℕ, ◌*◌, ◌≡◌, refl, ◌≤◌, ◌<◌, Bool, true, false, List, [], ◌∷◌, Option, ok, arith, ◌==◌, nat_eq,
  map, All, Bool-cases, inl, inr, filter, Result-cases,
}
use aiops_distributed_log.Tables.{group_by}
use aiops_distributed_log.Tables.Groups.{rows_of-group_by, All-group_by, at_key}
use aiops_distributed_log.Stream.Train.{
  Density, density, denser, first_by, head_by, densities, choose_cluster,
}

cross_trans : (a b c d e f : ℕ) → 0 < d → a * d ≤ c * b → c * f ≤ e * d → a * f ≤ e * b
cross_trans a b c d e f p h k =
    le_of_mul-le-mul_right {k = d} (omega (arith, mul-le-mul_right f h, mul-le-mul_right b k)) p

-- `not denser` is a preorder.
not_denser_trans : (a b c : Density) → denser a b ≡ false → denser b c ≡ false → denser a c ≡ false
not_denser_trans a b c h k =
    ground (arith, cross_trans a.total a.labelled b.total b.labelled c.total c.labelled)

-- The row that an order puts first: no row comes strictly before it.
module _ {A : Type 0} (before : A → A → Bool)
    (trans : (a b c : A) → before a b ≡ false → before b c ≡ false → before a c ≡ false)
    (asym : (a b : A) → before a b ≡ true → before b a ≡ false) where
  first_by_lem :
      (best : A) (gs : List A) (first : A)
      → first_by before best gs ≡ first
      → (before best first ≡ false) × All (λ g. before g first ≡ false) gs
  first_by_lem best [] first e = (rw (← e) (ground (arith, asym best best)), tt)
  first_by_lem best (g ∷ gs) first e = elim (Bool-cases (before g best)) [
    | inl sooner ↦
        let (low, others) = first_by_lem g gs first (ground arith) in
        (trans best g first (asym g best sooner) low, (low, others))
    | inr later ↦
        let (low, others) = first_by_lem best gs first (ground arith) in
        (low, (trans g best first later low, others))
  ]

first_by-All {ℓ} :
    {A : Type 0} (P : A → Type ℓ) (before : A → A → Bool) (best : A) (gs : List A)
    → P best
    → All P gs
    → P (first_by before best gs)
first_by-All P before best [] h hs = h
first_by-All P before best (g ∷ gs) h hs = elim (Bool-cases (before g best)) [
  | inl sooner ↦ rw sooner (first_by-All P before g gs hs.0 hs.1)
  | inr later ↦ rw later (first_by-All P before best gs h hs.1)
]

head_by_lem :
    {A : Type 0} (before : A → A → Bool) (P : A → Type 0)
    → ((a b c : A) → before a b ≡ false → before b c ≡ false → before a c ≡ false)
    → ((a b : A) → before a b ≡ true → before b a ≡ false)
    → (gs : List A) (best : A) → head_by before gs ≡ ok best
    → All P gs
    → All (λ g. before g best ≡ false) gs × P best
head_by_lem before P trans asym [] best e h = cc
head_by_lem before P trans asym (g ∷ gs) best e h =
    let e' : first_by before g gs ≡ best = cc in
    (first_by_lem before trans asym g gs best e', subst P e' (first_by-All P before g gs h.0 h.1))

denser_asym : (a b : ℕ × Density) → denser a.1 b.1 ≡ true → denser b.1 a.1 ≡ false
denser_asym a b h = ground arith

module _ {R : Type 0} (label : R → Option ℕ) (cluster : R → ℕ) where
  -- The rows of a cluster.
  abbrev pub cluster_rows : ℕ → List R → List R
  cluster_rows k = filter (λ r. cluster r == k)

  abbrev IsDensity : List R → ℕ × Density → Type 0
  IsDensity rows g = g.1 ≡ density label (cluster_rows g.0 rows)

  densities_lem :
      (rows : List R) (gs : List (ℕ × List R))
      → All (λ g. g.1 ≡ cluster_rows g.0 rows) gs
      → All (IsDensity rows) (map (λ g. (g.0, density label g.1)) gs)
  densities_lem rows [] h = tt
  densities_lem rows (g ∷ gs) h = (rw h.0, densities_lem rows gs h.1)

  ranked :
      (d : Density) (gs : List (ℕ × List R))
      → All (λ (g : ℕ × Density). denser g.1 d ≡ false) (map (λ g. (g.0, density label g.1)) gs)
      → All (λ g. denser (density label g.1) d ≡ false) gs
  ranked d [] h = tt
  ranked d (g ∷ gs) h = (h.0, ranked d gs h.1)

  abbrev before : ℕ × Density → ℕ × Density → Bool
  before a b = denser a.1 b.1

  -- The first group of the frame's order, and its density.
  chosen :
      (rows : List R) (best : ℕ × Density)
      → head_by before (densities label cluster rows) ≡ ok best
      → All (λ (g : ℕ × Density). denser g.1 best.1 ≡ false) (densities label cluster rows)
        × IsDensity rows best
  unfolding densities
  chosen rows best e =
      head_by_lem before (IsDensity rows) (λ a b c. not_denser_trans a.1 b.1 c.1) denser_asym
        (map (λ g. (g.0, density label g.1)) (group_by cluster rows)) best e
        (densities_lem rows (group_by cluster rows) (All-group_by cluster rows))

  -- With labels, no cluster has a higher average label than the one that is chosen; a cluster
  -- without labels counts as lower than any other.
  pub choose_cluster-densest :
      (rows : List R) {c : ℕ} (k : ℕ)
      → choose_cluster label cluster true rows ≡ ok c
      → denser (density label (cluster_rows k rows)) (density label (cluster_rows c rows)) ≡ false
  unfolding choose_cluster
  choose_cluster-densest rows {c} k h =
      elim (Result-cases (head_by before (densities label cluster rows))) [
        | inl (best, e) ↦
            let d = density label (cluster_rows best.0 rows) in
            let (first, own) = chosen rows best e in
            let highest =
              at_key (λ j rs. denser (density label rs) d ≡ false) k (group_by cluster rows)
                (ranked d (group_by cluster rows) (rw own at first)) refl in
            let same : best.0 ≡ c = ground arith in
            rw (← same) (rw (rows_of-group_by cluster k rows) at highest)
        | inr (x, e) ↦ absurd (ground arith)
      ]
