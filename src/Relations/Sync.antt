-- ===== src/Relations/Sync.antt =====
-- Reading after a synchronisation
-- (backend/app/services/resource_relations.py).
use open_slt.Prelude.{
  if◌then◌else◌, same, ℕ, ◌+◌, ◌≤◌, ◌<◌, false, mem, ℕ_discrete, if-both, true, ◌≡◌, ◌∙◌, refl, sym,
  ap, inl, inr, List, [], ◌∷◌, arith, Bool-cases,
}
use open_slt.Domain.{Link, TestRun, NodeType-discrete, order_preparation}
use open_slt.Relations.{
  insert_link, sort_links, values, ordered_ids, or_legacy, positions, is_distinct, are_unique,
  Owner, resource_ids, run_resource_ids, same_ids, renumber, new_links, replace_links,
  sync_resources, sync_run_resources, node_contract_file_ids, sync_node_contract_files, NodeOwner,
}

-- The rows as a query with `order_by(position)` gives them: positions do not fall.
abbrev pub IsOrdered : ℕ → List Link → Type 0
IsOrdered n [] = Unit
IsOrdered n (l ∷ ls) = (n ≤ l.position) × IsOrdered l.position ls

insert_link-IsOrdered :
    (n : ℕ) (l : Link) (ls : List Link) → IsOrdered l.position ls → insert_link l ls ≡ l ∷ ls
unfolding insert_link
insert_link-IsOrdered n l [] h = refl
insert_link-IsOrdered n l (m ∷ ms) h = ground arith

sort_links-IsOrdered : (n : ℕ) (ls : List Link) → IsOrdered n ls → sort_links ls ≡ ls
unfolding sort_links
sort_links-IsOrdered n [] h = refl
sort_links-IsOrdered n (l ∷ ls) h =
    rw (sort_links-IsOrdered l.position ls h.1) (insert_link-IsOrdered n l ls h.1)

same_ids→eq : (xs ys : List ℕ) → same_ids xs ys ≡ true → xs ≡ ys
unfolding same_ids
same_ids→eq [] [] h = refl
same_ids→eq (x ∷ xs) (y ∷ ys) h = ground (arith, same_ids→eq xs ys)
same_ids→eq [] (y ∷ ys) h = cc
same_ids→eq (x ∷ xs) [] h = cc

renumber-IsOrdered : (m n : ℕ) (ls : List Link) → m ≤ n → IsOrdered m (renumber n ls)
unfolding renumber
renumber-IsOrdered m n [] h = tt
renumber-IsOrdered m n (l ∷ ls) h = (h, renumber-IsOrdered n (n + 1) ls (omega arith))

values-renumber : (n : ℕ) (ls : List Link) → values (renumber n ls) ≡ values ls
unfolding renumber
values-renumber n [] = refl
values-renumber n (l ∷ ls) = ap (λ vs. l.value ∷ vs) (values-renumber (n + 1) ls)

new_links-IsOrdered : (m n : ℕ) (ids : List ℕ) → m ≤ n → IsOrdered m (new_links n ids)
unfolding new_links
new_links-IsOrdered m n [] h = tt
new_links-IsOrdered m n (v ∷ vs) h = (h, new_links-IsOrdered n (n + 1) vs (omega arith))

values-new_links : (n : ℕ) (ids : List ℕ) → values (new_links n ids) ≡ ids
unfolding new_links
values-new_links n [] = refl
values-new_links n (v ∷ vs) = ap (λ ws. v ∷ ws) (values-new_links (n + 1) vs)

-- Whichever way the rows are replaced, they read as the ids that were asked for.
pub ordered_ids-replace_links :
    (current : List Link) (ids : List ℕ)
    → IsOrdered 0 current
    → ordered_ids (replace_links current ids) ≡ ids
unfolding replace_links ordered_ids
ordered_ids-replace_links current ids h =
    elim (Bool-cases (same_ids (values (sort_links current)) ids)) [
      | inl b ↦
          rw
            (
              b,
              sort_links-IsOrdered 0 (renumber 1 current)
                  (renumber-IsOrdered 0 1 current (omega arith)),
              values-renumber 1 current,
            )
            (ap values (sym (sort_links-IsOrdered 0 current h)) ∙ same_ids→eq _ ids b)
      | inr b ↦
          rw
            (
              b,
              sort_links-IsOrdered 0 (new_links 1 ids) (new_links-IsOrdered 0 1 ids (omega arith)),
            )
            (values-new_links 1 ids)
    ]

or_legacy_self : (ids : List ℕ) → or_legacy ids ids ≡ ids
or_legacy_self [] = refl
or_legacy_self (i ∷ is) = refl

replace_links-IsOrdered :
    (current : List Link) (ids : List ℕ) → IsOrdered 0 (replace_links current ids)
unfolding replace_links
replace_links-IsOrdered current ids =
    if-both (IsOrdered 0) (same_ids (ordered_ids current) ids)
      (renumber-IsOrdered 0 1 current (omega arith)) (new_links-IsOrdered 0 1 ids (omega arith))

pub sync_node_contract_files-IsOrdered :
    (ids : List ℕ) (n : NodeOwner)
    → IsOrdered 0 (sync_node_contract_files ids n).contract_file_links
unfolding sync_node_contract_files
sync_node_contract_files-IsOrdered ids n =
    if-both (λ (m : NodeOwner). IsOrdered 0 m.contract_file_links)
      (same NodeType-discrete n.node_type order_preparation)
      (replace_links-IsOrdered n.contract_file_links ids)
      (replace_links-IsOrdered n.contract_file_links [])

-- The contract files of a node after a synchronisation: those asked for, if it prepares orders.
pub node_contract_file_ids-sync_node_contract_files :
    (ids : List ℕ) (n : NodeOwner)
    → IsOrdered 0 n.contract_file_links
    → (let after = sync_node_contract_files ids n in
        (after.node_type ≡ n.node_type)
        × (node_contract_file_ids after
            ≡ (if same NodeType-discrete n.node_type order_preparation then ids else [])))
unfolding node_contract_file_ids sync_node_contract_files
node_contract_file_ids-sync_node_contract_files ids n h =
    elim (Bool-cases (same NodeType-discrete n.node_type order_preparation)) [
      | inl b ↦
          rw b
            (refl, rw (ordered_ids-replace_links n.contract_file_links ids h) (or_legacy_self ids))
      | inr b ↦ rw b (refl, rw (ordered_ids-replace_links n.contract_file_links [] h) refl)
    ]

-- The positions are the numbers from one on.
abbrev AreNumbered : ℕ → List Link → Type 0
AreNumbered n [] = Unit
AreNumbered n (l ∷ ls) = (l.position ≡ n) × AreNumbered (n + 1) ls

renumber-AreNumbered : (n : ℕ) (ls : List Link) → AreNumbered n (renumber n ls)
unfolding renumber
renumber-AreNumbered n [] = tt
renumber-AreNumbered n (l ∷ ls) = (refl, renumber-AreNumbered (n + 1) ls)

new_links-AreNumbered : (n : ℕ) (ids : List ℕ) → AreNumbered n (new_links n ids)
unfolding new_links
new_links-AreNumbered n [] = tt
new_links-AreNumbered n (v ∷ vs) = (refl, new_links-AreNumbered (n + 1) vs)

mem-positions :
    (k n : ℕ) (ls : List Link) → k < n → AreNumbered n ls → mem ℕ_discrete k (positions ls) ≡ false
mem-positions k n [] h a = refl
mem-positions k n (l ∷ ls) h a = ground (arith, mem-positions k (n + 1) ls (omega arith) a.1, a.0)

is_distinct-positions :
    (n : ℕ) (ls : List Link) → AreNumbered n ls → is_distinct (positions ls) ≡ true
unfolding is_distinct
is_distinct-positions n [] a = refl
is_distinct-positions n (l ∷ ls) a = ground (
  arith,
  mem-positions l.position (n + 1) ls (omega (arith, a.0)) a.1,
  is_distinct-positions (n + 1) ls a.1,
)

replace_links-AreNumbered :
    (current : List Link) (ids : List ℕ) → AreNumbered 1 (replace_links current ids)
unfolding replace_links
replace_links-AreNumbered current ids =
    if-both (AreNumbered 1) (same_ids (ordered_ids current) ids) (renumber-AreNumbered 1 current)
      (new_links-AreNumbered 1 ids)

values-replace_links :
    (current : List Link) (ids : List ℕ)
    → IsOrdered 0 current
    → values (replace_links current ids) ≡ ids
unfolding replace_links ordered_ids
values-replace_links current ids h =
    elim (Bool-cases (same_ids (values (sort_links current)) ids)) [
      | inl b ↦ rw b (
          values-renumber 1 current
          ∙ (ap values (sym (sort_links-IsOrdered 0 current h)) ∙ same_ids→eq _ ids b))
      | inr b ↦ rw b (values-new_links 1 ids)
    ]

replace_links-are_unique :
    (current : List Link) (ids : List ℕ)
    → is_distinct ids ≡ true
    → IsOrdered 0 current
    → are_unique (replace_links current ids) ≡ true
unfolding are_unique
replace_links-are_unique current ids d h =
    rw (values-replace_links current ids h, d)
      (is_distinct-positions 1 (replace_links current ids) (replace_links-AreNumbered current ids))

-- Synchronising a plan, a scenario or a workflow version with a list of distinct resources, the empty
-- one included, gives rows that fulfil the unique constraints of their table, and reading the resources
-- afterwards gives that list, in its order. So it does for a run. The rows must have been loaded in the
-- order of their positions.
pub resource_ids-sync_resources :
    (ids : List ℕ) (o : Owner) (run : TestRun)
    → is_distinct ids ≡ true
    → IsOrdered 0 o.links
    → IsOrdered 0 run.resource_links
    → (are_unique (sync_resources ids o).links ≡ true)
      × (resource_ids (sync_resources ids o) ≡ ids)
      × (are_unique (sync_run_resources ids run).resource_links ≡ true)
      × (run_resource_ids (sync_run_resources ids run) ≡ ids)
unfolding resource_ids sync_resources run_resource_ids sync_run_resources
resource_ids-sync_resources ids o run d h k = (
  replace_links-are_unique o.links ids d h,
  rw (ordered_ids-replace_links o.links ids h) (or_legacy_self ids),
  replace_links-are_unique run.resource_links ids d k,
  rw (ordered_ids-replace_links run.resource_links ids k) (or_legacy_self ids),
)
