-- ===== src/Api/Demo/Feed.antt =====
-- The feed of the demo page of src/api/main.py: what the loop at the end of `appendRow` leaves.
use aiops_distributed_log.Prelude.{
  ℕ, zero, suc, ◌+◌, ◌≤◌, ◌≡◌, refl, inl, inr, min, ap, List, [], ◌∷◌, ◌++◌, length, arith, ltb,
  Bool-cases, append_assoc, append-nil,
}
use aiops_distributed_log.Api.Demo.{Node, children, remove_last, trim, Page, append_row}

length-remove_last : (n : Node) (ns : List Node) → length (remove_last (n ∷ ns)) ≡ length ns
length-remove_last n [] = refl
length-remove_last n (m ∷ ns) = omega (arith, length-remove_last m ns)

children-remove_last : (ns : List Node) → children ns ≤ children (remove_last ns) + 1
children-remove_last [] = omega arith
children-remove_last (n ∷ []) = ground arith
children-remove_last (n ∷ m ∷ ns) = omega (arith, children-remove_last (m ∷ ns))

children-le-length : (ns : List Node) → children ns ≤ length ns
children-le-length [] = omega arith
children-le-length (n ∷ ns) = ground (arith, children-le-length ns)

-- The node that the loop removes first.
removed : (n : Node) (ns : List Node) → (m : Node) × (remove_last (n ∷ ns) ++ m ∷ [] ≡ n ∷ ns)
removed n [] = (n, refl)
removed n (m ∷ ns) = let (l, e) = removed m ns in (l, ap (λ t. n ∷ t) e)

-- The loop ends by its test, with fuel for each node.
children-trim :
    (fuel : ℕ) (ns : List Node) → length ns ≤ fuel → children (trim fuel ns) ≡ min (children ns) 200
unfolding trim
children-trim zero [] h = refl
children-trim zero (n ∷ ns) h = absurd (omega arith)
children-trim (suc fuel) [] h = ground (arith, children-trim fuel [])
children-trim (suc fuel) (n ∷ ns) h = ground (
  arith,
  length-remove_last n ns,
  children-remove_last (n ∷ ns),
  children-trim fuel (remove_last (n ∷ ns)),
)

-- What it leaves is the front of what it gets.
trim-front : (fuel : ℕ) (ns : List Node) → (gone : List Node) × (trim fuel ns ++ gone ≡ ns)
unfolding trim
trim-front zero ns = ([], append-nil ns)
trim-front (suc fuel) [] = ([], append-nil [])
trim-front (suc fuel) (n ∷ ns) = elim (Bool-cases (ltb 200 (children (n ∷ ns)))) [
  | inl more ↦
      let (gone, e) = trim-front fuel (remove_last (n ∷ ns)) in
      let (m, e') = removed n ns in
      (
        gone ++ m ∷ [],
        ground (arith, append_assoc (trim fuel (remove_last (n ∷ ns))) gone (m ∷ []), more),
      )
  | inr done ↦ ([], ground (arith, append-nil (n ∷ ns)))
]

-- A new row comes first, then the newest of the old ones, up to 200 elements.
pub append_row_lem :
    (n : Node) (p : Page)
    → let p' = append_row n p in
      (children p'.feed ≡ min (children (n ∷ p.feed)) 200)
      × ((gone : List Node) × (p'.feed ++ gone ≡ n ∷ p.feed))
unfolding append_row
append_row_lem n p =
    let feed' = n ∷ p.feed in
    (children-trim (length feed') feed' (omega arith), trim-front (length feed') feed')

-- Nothing else of the page changes.
pub append_row-feed :
    (n : Node) (p : Page) → append_row n p ≡ record p { feed = (append_row n p).feed }
unfolding append_row
append_row-feed n p = refl
