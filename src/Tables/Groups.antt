-- ===== src/Tables/Groups.antt =====
-- The groups of a list of rows: each key once, each row in the group of its key, and no others.
use mathlib.Core.Path.{subst}
use aiops_distributed_log.Prelude.{
  ℕ, ◌+◌, ◌≡◌, All, true, Bool, Bool-cases, inl, inr, refl, false, ◌||◌, List, [], ◌∷◌, ◌++◌, arith,
  Eq, ◌==◌, if◌then◌else◌, filter, any, contains, sum_by, append-nil, list_laws, sum_by-append,
}
use aiops_distributed_log.Tables.{add_row, group_from, group_by, rows_of, keys}

-- No key twice.
abbrev pub AreDistinct {ℓ} : {K : Type ℓ} ⦃e : Eq K⦄ → List K → Type 0
AreDistinct [] = Unit
AreDistinct (k ∷ ks) = (contains ks k ≡ false) × AreDistinct ks

module _ {ℓ κ} {K : Type ℓ} {R : Type κ} ⦃e : Eq K⦄ where
  rows_of-add_row :
      (k j : K) (r : R) (gs : List (K × List R))
      → rows_of j (add_row k r gs) ≡ (if k == j then rows_of j gs ++ r ∷ [] else rows_of j gs)
  unfolding add_row
  rows_of-add_row k j r [] = ground arith
  rows_of-add_row k j r ((i, rs) ∷ gs) =
      ground (arith, rows_of-add_row k j r gs, e.beq_iff i k, e.beq_iff i j, e.beq_iff k j)

  keys-add_row :
      (k j : K) (r : R) (gs : List (K × List R))
      → contains (keys (add_row k r gs)) j ≡ (j == k || contains (keys gs) j)
  unfolding add_row
  keys-add_row k j r [] = ground arith
  keys-add_row k j r ((i, rs) ∷ gs) =
      ground (arith, keys-add_row k j r gs, e.beq_iff i k, e.beq_iff j i, e.beq_iff j k)

  distinct-add_row :
      (k : K) (r : R) (gs : List (K × List R))
      → AreDistinct (keys gs)
      → AreDistinct (keys (add_row k r gs))
  unfolding add_row
  distinct-add_row k r [] h = ground arith
  distinct-add_row k r ((i, rs) ∷ gs) h =
      ground (arith, distinct-add_row k r gs h.1, keys-add_row k i r gs, e.beq_iff i k)

  -- A sum over the groups whose key passes a test.
  abbrev pub sum_groups : (K → Bool) → (R → ℕ) → List (K × List R) → ℕ
  sum_groups w f = sum_by (λ g. if w g.0 then sum_by f g.1 else 0)

  sum_groups-add_row :
      (w : K → Bool) (f : R → ℕ) (k : K) (r : R) (gs : List (K × List R))
      → sum_groups w f (add_row k r gs) ≡ sum_groups w f gs + (if w k then f r else 0)
  unfolding add_row
  sum_groups-add_row w f k r [] = ground arith
  sum_groups-add_row w f k r ((i, rs) ∷ gs) = elim (Bool-cases (i == k)) [
    | inl same ↦ rw (same, (e.beq_iff i k).0 same) (ground (arith, sum_by-append f rs (r ∷ [])))
    | inr other ↦ rw other (omega (arith, sum_groups-add_row w f k r gs))
  ]

  module _ (key : R → K) where
    rows_of-group_from :
        (k : K) (gs : List (K × List R)) (rs : List R)
        → rows_of k (group_from key gs rs) ≡ rows_of k gs ++ filter (λ r. key r == k) rs
    unfolding group_from
    rows_of-group_from k gs [] = ground (arith, append-nil (rows_of k gs))
    rows_of-group_from k gs (r ∷ rs) = grind (
      arith,
      list_laws,
      rows_of-group_from k (add_row (key r) r gs) rs,
      rows_of-add_row (key r) k r gs,
    )

    keys-group_from :
        (k : K) (gs : List (K × List R)) (rs : List R)
        → contains (keys (group_from key gs rs)) k
          ≡ (any (λ r. k == key r) rs || contains (keys gs) k)
    unfolding group_from
    keys-group_from k gs [] = refl
    keys-group_from k gs (r ∷ rs) =
        ground (arith, keys-group_from k (add_row (key r) r gs) rs, keys-add_row (key r) k r gs)

    distinct-group_from :
        (gs : List (K × List R)) (rs : List R)
        → AreDistinct (keys gs)
        → AreDistinct (keys (group_from key gs rs))
    unfolding group_from
    distinct-group_from gs [] h = h
    distinct-group_from gs (r ∷ rs) h =
        distinct-group_from (add_row (key r) r gs) rs (distinct-add_row (key r) r gs h)

    sum_groups-group_from :
        (w : K → Bool) (f : R → ℕ) (gs : List (K × List R)) (rs : List R)
        → sum_groups w f (group_from key gs rs)
          ≡ sum_groups w f gs + sum_by (λ r. if w (key r) then f r else 0) rs
    unfolding group_from
    sum_groups-group_from w f gs [] = omega arith
    sum_groups-group_from w f gs (r ∷ rs) = omega (
      arith,
      sum_groups-group_from w f (add_row (key r) r gs) rs,
      sum_groups-add_row w f (key r) r gs,
    )

    pub rows_of-group_by :
        (k : K) (rs : List R) → rows_of k (group_by key rs) ≡ filter (λ r. key r == k) rs
    unfolding group_by
    rows_of-group_by k rs = rows_of-group_from k [] rs

    pub keys-group_by :
        (k : K) (rs : List R) → contains (keys (group_by key rs)) k ≡ any (λ r. k == key r) rs
    unfolding group_by
    keys-group_by k rs = ground (arith, keys-group_from k [] rs)

    pub distinct-group_by : (rs : List R) → AreDistinct (keys (group_by key rs))
    unfolding group_by
    distinct-group_by rs = distinct-group_from [] rs tt

    pub sum_groups-group_by :
        (w : K → Bool) (f : R → ℕ) (rs : List R)
        → sum_groups w f (group_by key rs) ≡ sum_by (λ r. if w (key r) then f r else 0) rs
    unfolding group_by
    sum_groups-group_by w f rs = omega (arith, sum_groups-group_from w f [] rs)

  -- With distinct keys there is at most one group of a key.
  pub one_group :
      (k : K) (gs : List (K × List R))
      → AreDistinct (keys gs)
      → sum_by (λ g. if g.0 == k then 1 else 0) gs ≡ (if contains (keys gs) k then 1 else 0)
  one_group k [] h = refl
  one_group k ((i, rs) ∷ gs) h = ground (arith, one_group k gs h.1, e.beq_iff i k, e.beq_iff k i)

-- What holds of every group holds of the rows of a key, if it holds of no rows.
pub at_key {ℓ κ μ} :
    {K : Type ℓ} {R : Type κ} ⦃e : Eq K⦄ (Q : K → List R → Type μ) (k : K) (gs : List (K × List R))
    → All (λ g. Q g.0 g.1) gs
    → Q k []
    → Q k (rows_of k gs)
at_key Q k [] h none = none
at_key ⦃e⦄ Q k ((j, rs) ∷ gs) h none = elim (Bool-cases (j == k)) [
  | inl same ↦ rw same (subst (λ x. Q x rs) ((e.beq_iff j k).0 same) h.0)
  | inr other ↦ rw other (at_key Q k gs h.1 none)
]

module _ {ℓ κ} {K : Type ℓ} {R : Type κ} ⦃e : Eq K⦄ where
  All-rows :
      (rows : K → List R) (gs : List (K × List R))
      → ((k : K) → contains (keys gs) k ≡ true → rows_of k gs ≡ rows k)
      → AreDistinct (keys gs)
      → All (λ g. g.1 ≡ rows g.0) gs
  All-rows rows [] h d = tt
  All-rows rows ((j, rs) ∷ gs) h d = (
    ground (arith, h j, e.beq_iff j j),
    All-rows rows gs (λ k m. ground (arith, h k, e.beq_iff j k)) d.1,
  )

  -- Each group holds exactly the rows with its key.
  pub All-group_by :
      (key : R → K) (rs : List R) → All (λ g. g.1 ≡ filter (λ r. key r == g.0) rs) (group_by key rs)
  All-group_by key rs =
      All-rows (λ k. filter (λ r. key r == k) rs) (group_by key rs)
        (λ k m. rows_of-group_by key k rs) (distinct-group_by key rs)

-- Some key passes a test exactly if the key of some row does.
module _ {ℓ κ} {K : Type ℓ} {R : Type κ} ⦃e : Eq K⦄ (w : K → Bool) where
  any-add_row :
      (k : K) (r : R) (gs : List (K × List R))
      → any (λ g. w g.0) (add_row k r gs) ≡ (w k || any (λ g. w g.0) gs)
  unfolding add_row
  any-add_row k r [] = refl
  any-add_row k r ((i, rs) ∷ gs) = elim (Bool-cases (i == k)) [
    | inl same ↦ rw (same, (e.beq_iff i k).0 same) (ground arith)
    | inr other ↦ rw other (ground (arith, any-add_row k r gs))
  ]

  any-group_from :
      (key : R → K) (gs : List (K × List R)) (rs : List R)
      → any (λ g. w g.0) (group_from key gs rs) ≡ (any (λ r. w (key r)) rs || any (λ g. w g.0) gs)
  unfolding group_from
  any-group_from key gs [] = refl
  any-group_from key gs (r ∷ rs) =
      ground (arith, any-group_from key (add_row (key r) r gs) rs, any-add_row (key r) r gs)

  pub any-group_by :
      (key : R → K) (rs : List R) → any (λ g. w g.0) (group_by key rs) ≡ any (λ r. w (key r)) rs
  unfolding group_by
  any-group_by key rs = ground (arith, any-group_from key [] rs)
