-- ===== src/Versions/Drafts/Keys.antt =====
-- How often a key occurs among the nodes that `replace_draft` of backend/app/services/workflow_core.py
-- writes.
use open_slt.Prelude.{
  ℕ, ◌+◌, ◌≤◌, Bool, true, false, not, ◌&&◌, ◌≡◌, refl, ap, List, [], ◌∷◌, any, arith, count_if,
  count_if-append, count_if-modify_first, Bool-cases, inl, inr, if◌then◌else◌,
}
use open_slt.Versions.{WorkflowNode}
use open_slt.Versions.Drafts.{
  NodeWrite, has_node_key, is_item, kept_nodes, rewritten, new_node, write_node, write_nodes,
}

abbrev one_if : Bool → ℕ
one_if b = if b then 1 else 0

module _ {C : Type 0} where
  abbrev pub HaveOwnKeys : List (NodeWrite C) → Type 0
  HaveOwnKeys [] = Unit
  HaveOwnKeys (item ∷ items) = (any (is_item item.node_key) items ≡ false) × HaveOwnKeys items

  -- Nodes of one version have keys of their own (`uq_workflow_node_key`).
  abbrev pub HaveOneKey : List (WorkflowNode C) → Type 0
  HaveOneKey nodes = (k : ℕ) → count_if (has_node_key k) nodes ≤ 1

  same_key : (k : ℕ) (item : NodeWrite C) → is_item k item ≡ true → item.node_key ≡ k
  same_key k item b = ground (arith, b)

  count-write :
      (existing nodes : List (WorkflowNode C)) (i position k : ℕ) (item : NodeWrite C)
      → count_if (has_node_key k) (write_node existing i position item nodes)
        ≡ count_if (has_node_key k) nodes
          + one_if (is_item k item && not (any (has_node_key k) existing))
  unfolding write_node
  count-write existing nodes i position k item =
      let kept =
        count_if-modify_first (has_node_key k) (has_node_key item.node_key)
          (rewritten position item) (λ x. refl) nodes in
      let added = count_if-append (has_node_key k) nodes (new_node i position item ∷ []) in
      elim (Bool-cases (is_item k item)) [
        | inl b ↦
            ground
              (arith, b, kept, added, ap (λ j. any (has_node_key j) existing) (same_key k item b))
        | inr b ↦ ground (arith, b, kept, added)
      ]

  count-writes :
      (existing : List (WorkflowNode C)) (items : List (NodeWrite C))
      (nodes : List (WorkflowNode C)) (i position k : ℕ)
      → HaveOwnKeys items
      → count_if (has_node_key k) (write_nodes existing i position items nodes)
        ≡ count_if (has_node_key k) nodes
          + one_if (any (is_item k) items && not (any (has_node_key k) existing))
  unfolding write_nodes
  count-writes existing [] nodes i position k h = omega arith
  count-writes existing (item ∷ items) nodes i position k h =
      let rest =
        count-writes existing items (write_node existing i position item nodes) (i + 1)
          (position + 1) k h.1 in
      let first = count-write existing nodes i position k item in
      elim (Bool-cases (is_item k item)) [
        | inl b ↦
            ground (arith, b, rest, first, h.0, ap (λ j. any (is_item j) items) (same_key k item b))
        | inr b ↦ ground (arith, b, rest, first)
      ]

  count-kept_nodes :
      (k : ℕ) (items : List (NodeWrite C)) (nodes : List (WorkflowNode C))
      → count_if (has_node_key k) (kept_nodes items nodes)
        ≡ (if any (is_item k) items then count_if (has_node_key k) nodes else 0)
  unfolding kept_nodes
  count-kept_nodes k items [] = ground arith
  count-kept_nodes k items (x ∷ xs) = elim (Bool-cases (has_node_key k x)) [
    | inl b ↦
        let same : x.node_key ≡ k = ground (arith, b) in
        ground (arith, b, count-kept_nodes k items xs, ap (λ j. any (is_item j) items) same)
    | inr b ↦ ground (arith, b, count-kept_nodes k items xs)
  ]

  any-count :
      (p : WorkflowNode C → Bool) (nodes : List (WorkflowNode C))
      → count_if p nodes ≤ 1
      → count_if p nodes ≡ one_if (any p nodes)
  any-count p [] h = refl
  any-count p (x ∷ xs) h = ground (arith, h, any-count p xs (ground (arith, h)))

  -- each key of the request once, and no other
  pub count-replaced :
      (items : List (NodeWrite C)) (nodes : List (WorkflowNode C)) (i : ℕ)
      → HaveOwnKeys items
      → HaveOneKey nodes
      → (k : ℕ)
      → count_if
          (has_node_key k)
          (write_nodes (kept_nodes items nodes) i 1 items (kept_nodes items nodes))
        ≡ (if any (is_item k) items then 1 else 0)
  count-replaced items nodes i own one k =
      let kept = count-kept_nodes k items nodes in
      ground (
        arith,
        count-writes (kept_nodes items nodes) items (kept_nodes items nodes) i 1 k own,
        kept,
        any-count (has_node_key k) (kept_nodes items nodes) (ground (arith, kept, one k)),
      )
