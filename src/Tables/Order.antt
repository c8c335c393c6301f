-- ===== src/Tables/Order.antt =====
-- What `GROUP BY` and the aggregates make of a table does not depend on the order of its rows.
use mathlib.Core.Path.{subst}
use mathlib.Core.Logic.{∥∥₁_elim}
use mathlib.Core.List.Perm
use mathlib.Core.List.{
  Perm, Perm-prop, Permᴰ, Mem, Memᴰ, mem-cons_of_mem, Nodup, Nodup-nil, Nodup-cons,
  perm_ext_iff_of_Nodup,
}
use native.Mathlib.Nat.{ℕ_set}
use aiops_distributed_log.Prelude.{
  ℕ, suc, ◌+◌, ◌≡◌, ◌↔◌, ◌||◌, true, Bool-cases, inl, inr, Eq, ◌==◌, contains, map, fun_ext, refl,
  sym, ap, ◌∙◌, Bool, List, [], ◌∷◌, All, arith, filter, length, sum_by, any,
}
use aiops_distributed_log.Tables.{group_by, keys}
use aiops_distributed_log.Tables.Groups.{
  AreDistinct, All-group_by, keys-group_by, distinct-group_by,
}

-- An aggregate: it takes the rows one by one, and two neighbours may change places.
module _ {ℓ κ} {A : Type ℓ} {B : Type κ} (g : List A → B) (step : A → B → B)
    (g-cons : (x : A) (xs : List A) → g (x ∷ xs) ≡ step x (g xs))
    (step_comm : (x y : A) (b : B) → step x (step y b) ≡ step y (step x b)) where
  aggregate-Permᴰ : {xs ys : List A} → Permᴰ xs ys → g xs ≡ g ys
  aggregate-Permᴰ Permᴰ.nil = refl
  aggregate-Permᴰ (Permᴰ.cons {a} {b} {l₁} {l₂} e p) =
      g-cons a l₁ ∙ (λ i. step (e i) (aggregate-Permᴰ p i)) ∙ sym (g-cons b l₂)
  aggregate-Permᴰ (Permᴰ.swap {a} {b} {a'} {b'} {l} e e') =
      g-cons a (b ∷ l)
      ∙ ap (step a) (g-cons b l)
      ∙ step_comm a b (g l)
      ∙ (λ i. step (e' i) (step (e i) (g l)))
      ∙ sym (ap (step a') (g-cons b' l))
      ∙ sym (g-cons a' (b' ∷ l))
  aggregate-Permᴰ (Permᴰ.trans p q) = aggregate-Permᴰ p ∙ aggregate-Permᴰ q

  pub aggregate-Perm : IsSet B → {xs ys : List A} → Perm xs ys → g xs ≡ g ys
  aggregate-Perm is_set p = ∥∥₁_elim p (is_set _ _) aggregate-Permᴰ

module _ {ℓ} {A : Type ℓ} where
  pub sum_by-Perm : (f : A → ℕ) {xs ys : List A} → Perm xs ys → sum_by f xs ≡ sum_by f ys
  sum_by-Perm f =
      aggregate-Perm (sum_by f) (λ x n. f x + n) (λ x xs. refl) (λ x y n. omega arith) ℕ_set

  pub any-Perm : (p : A → Bool) {xs ys : List A} → Perm xs ys → any p xs ≡ any p ys
  any-Perm p =
      aggregate-Perm (any p) (λ x b. p x || b) (λ x xs. refl) (λ x y b. ground arith) (hlevel)

  filter-Permᴰ : (p : A → Bool) {xs ys : List A} → Permᴰ xs ys → Perm (filter p xs) (filter p ys)
  filter-Permᴰ p Permᴰ.nil = Perm.nil
  filter-Permᴰ p (Permᴰ.cons {a} {b} {l₁} {l₂} e q) =
      subst (λ x. Perm (filter p (a ∷ l₁)) (filter p (x ∷ l₂))) e
        (elim (Bool-cases (p a)) [
          | inl kept ↦ rw kept (Perm.cons a (filter-Permᴰ p q))
          | inr dropped ↦ rw dropped (filter-Permᴰ p q)
        ])
  filter-Permᴰ p (Permᴰ.swap {a} {b} {a'} {b'} {l} e e') =
      subst (λ x. Perm (filter p (a ∷ b ∷ l)) (filter p (a' ∷ x ∷ l))) e
        (subst (λ x. Perm (filter p (a ∷ b ∷ l)) (filter p (x ∷ a ∷ l))) e'
          (elim (Bool-cases (p a)) [
            | inl kept ↦ elim (Bool-cases (p b)) [
              | inl kept' ↦ rw (kept, kept') (Perm.swap b a (filter p l))
              | inr dropped ↦ rw (kept, dropped) (Perm.refl _)
            ]
            | inr dropped ↦ rw dropped (Perm.refl _)
          ]))
  filter-Permᴰ p (Permᴰ.trans q r) = Perm.trans (filter-Permᴰ p q) (filter-Permᴰ p r)

  pub filter-Perm : (p : A → Bool) {xs ys : List A} → Perm xs ys → Perm (filter p xs) (filter p ys)
  filter-Perm p q = ∥∥₁_elim q Perm-prop (filter-Permᴰ p)

module _ {ℓ} {K : Type ℓ} ⦃e : Eq K⦄ where
  contains-Memᴰ : {k : K} {ks : List K} → Memᴰ k ks → contains ks k ≡ true
  contains-Memᴰ {k} (Memᴰ.head {x} {xs} same) = ground (arith, e.beq_iff k x)
  contains-Memᴰ (Memᴰ.tail later) = ground (arith, contains-Memᴰ later)

  contains_iff : (k : K) (ks : List K) → (contains ks k ≡ true) ↔ Mem k ks
  contains_iff k ks = (there ks, λ m. ∥∥₁_elim m (hlevel) contains-Memᴰ)
    where
      there : (l : List K) → contains l k ≡ true → Mem k l
      there [] h = absurd (ground arith)
      there (x ∷ xs) h = elim (Bool-cases (k == x)) [
        | inl same ↦ ∣ Memᴰ.head ((e.beq_iff k x).0 same) ∣₁
        | inr other ↦ mem-cons_of_mem x (there xs (ground arith))
      ]

  AreDistinct-Nodup : (ks : List K) → AreDistinct ks → Nodup ks
  AreDistinct-Nodup [] h = Nodup-nil
  AreDistinct-Nodup (k ∷ ks) (h, hs) =
      Nodup-cons.1 (λ m. absurd (ground (arith, (contains_iff k ks).1 m)), AreDistinct-Nodup ks hs)

module _ {ℓ κ} {K : Type ℓ} {R : Type κ} ⦃e : Eq K⦄ (key : R → K) where
  -- The keys that a table has are those of the table in another order.
  keys-Perm :
      {rs rs' : List R} → Perm rs rs' → Perm (keys (group_by key rs)) (keys (group_by key rs'))
  keys-Perm {rs} {rs'} p =
      let has = λ (k : K) (l : List R). keys-group_by key k l in
      let same = λ (k : K). has k rs ∙ any-Perm (λ r. k == key r) p ∙ sym (has k rs') in
      (perm_ext_iff_of_Nodup (AreDistinct-Nodup _ (distinct-group_by key rs))
          (AreDistinct-Nodup _ (distinct-group_by key rs'))).1
        (λ k. (
          λ m. (contains_iff k _).0 (sym (same k) ∙ (contains_iff k _).1 m),
          λ m. (contains_iff k _).0 (same k ∙ (contains_iff k _).1 m),
        ))

module _ {ℓ κ μ} {K : Type ℓ} {R : Type κ} {B : Type μ} ⦃e : Eq K⦄ (f : K × List R → B) where
  map-keys :
      (rows : K → List R) (gs : List (K × List R))
      → All (λ g. g.1 ≡ rows g.0) gs
      → map f gs ≡ map (λ k. f (k, rows k)) (keys gs)
  map-keys rows [] h = refl
  map-keys rows ((k, rs) ∷ gs) (h, hs) = λ i. f (k, h i) ∷ map-keys rows gs hs i

  -- Groups that are made into rows by an aggregate give the same rows, in whatever order the table
  -- comes.
  pub group_by-Perm :
      ((k : K) (rs rs' : List R) → Perm rs rs' → f (k, rs) ≡ f (k, rs'))
      → (key : R → K) {rs rs' : List R} → Perm rs rs'
      → Perm (map f (group_by key rs)) (map f (group_by key rs'))
  group_by-Perm aggregates key {rs} {rs'} p =
      let at = λ (l : List R) (k : K). filter (λ r. key r == k) l in
      let made = λ (l : List R). map-keys (at l) (group_by key l) (All-group_by key l) in
      let pointwise : (λ k. f (k, at rs k)) ≡ (λ k. f (k, at rs' k)) =
        fun_ext (λ k. aggregates k (at rs k) (at rs' k) (filter-Perm (λ r. key r == k) p)) in
      rw (made rs, made rs', pointwise) (Perm.map (λ k. f (k, at rs' k)) (keys-Perm key p))

pub length-Perm {ℓ} : {A : Type ℓ} {xs ys : List A} → Perm xs ys → length xs ≡ length ys
length-Perm = aggregate-Perm length (λ x n. suc n) (λ x xs. refl) (λ x y n. refl) ℕ_set
