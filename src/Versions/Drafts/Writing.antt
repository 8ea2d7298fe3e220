-- ===== src/Versions/Drafts/Writing.antt =====
-- The nodes that the loop of `replace_draft` (backend/app/services/workflow_core.py) writes: for each
-- item of the request its node.
use open_slt.Prelude.{
  if◌then◌else◌, All-modify_first, All-append, ap, sym, is_some, ℕ, ◌+◌, Bool, true, false, ◌≡◌,
  ◌∙◌, refl, some, List, [], ◌∷◌, ◌++◌, ◌==◌, any, find, All, modify_first, arith, if-both, same,
  Bool-cases, inl, inr,
}
use open_slt.Versions.Drafts.Keys.{HaveOwnKeys}
use open_slt.Relations.Sync.{
  IsOrdered, node_contract_file_ids-sync_node_contract_files, sync_node_contract_files-IsOrdered,
}
use open_slt.Versions.{WorkflowNode, files_of}
use open_slt.Relations.{node_contract_file_ids, or_empty}
use open_slt.Domain.{NodeType-discrete, order_preparation}
use open_slt.Versions.Drafts.{
  NodeWrite, has_node_key, is_item, rewritten, new_node, write_node, write_nodes,
}

module _ {C : Type 0} where
  -- The node that an item of the request asks for.
  pub record IsNodeOf (position : ℕ) (item : NodeWrite C) (n : WorkflowNode C) : Type 0 where
    pub same_position : n.position ≡ position
    pub same_type : n.node_type ≡ item.node_type
    pub same_config : n.config ≡ item.config
    pub same_files : node_contract_file_ids (files_of n) ≡ (
        if same NodeType-discrete item.node_type order_preparation
        then or_empty item.contract_file_ids
        else [])

  -- Each item, from a position on, has its node.
  abbrev pub ArePlaced : ℕ → List (NodeWrite C) → List (WorkflowNode C) → Type 0
  ArePlaced position [] nodes = Unit
  ArePlaced position (item ∷ items) nodes =
      ((n : WorkflowNode C) × (find (has_node_key item.node_key) nodes ≡ some n)
        × IsNodeOf position item n)
      × ArePlaced (position + 1) items nodes

  rewritten-IsNodeOf :
      (position : ℕ) (item : NodeWrite C) (n : WorkflowNode C)
      → IsOrdered 0 n.contract_file_links
      → IsNodeOf position item (rewritten position item n)
  unfolding node_contract_file_ids
  rewritten-IsNodeOf position item n h = record {
    same_position = refl;
    same_type = refl;
    same_config = refl;
    same_files =
        (node_contract_file_ids-sync_node_contract_files (or_empty item.contract_file_ids)
          (record {
            node_type = item.node_type;
            contract_file_links = n.contract_file_links;
            contract_file_ids = item.contract_file_ids;
          })
          h).1;
  }

  new_node-IsNodeOf :
      (i position : ℕ) (item : NodeWrite C) → IsNodeOf position item (new_node i position item)
  unfolding node_contract_file_ids
  new_node-IsNodeOf i position item = record {
    same_position = refl;
    same_type = refl;
    same_config = refl;
    same_files =
        (node_contract_file_ids-sync_node_contract_files (or_empty item.contract_file_ids)
          (record {
            node_type = item.node_type;
            contract_file_links = [];
            contract_file_ids = item.contract_file_ids;
          })
          tt).1;
  }

  -- The links of a node, loaded in the order of their positions.
  abbrev pub HasOrderedFiles : WorkflowNode C → Type 0
  HasOrderedFiles n = IsOrdered 0 n.contract_file_links

  modify-own :
      (position : ℕ) (item : NodeWrite C) (nodes : List (WorkflowNode C))
      → All HasOrderedFiles nodes
      → any (has_node_key item.node_key) nodes ≡ true
      → (n : WorkflowNode C) × (find
            (has_node_key item.node_key)
            (modify_first (has_node_key item.node_key) (rewritten position item) nodes)
          ≡ some n)
        × IsNodeOf position item n
  modify-own position item [] l h = cc
  modify-own position item (x ∷ xs) l h = elim (Bool-cases (has_node_key item.node_key x)) [
    | inl e ↦ (rewritten position item x, rw (e, e) refl, rewritten-IsNodeOf position item x l.0)
    | inr e ↦
        let (n, f, g) = modify-own position item xs l.1 (ground (arith, e, h)) in
        (n, rw (e, e) f, g)
  ]

  append-own :
      (i position : ℕ) (item : NodeWrite C) (nodes : List (WorkflowNode C))
      → any (has_node_key item.node_key) nodes ≡ false
      → find (has_node_key item.node_key) (nodes ++ new_node i position item ∷ [])
        ≡ some (new_node i position item)
  append-own i position item [] h = ground arith
  append-own i position item (x ∷ xs) h = ground (arith, append-own i position item xs)

  modify-other :
      (position k : ℕ) (item : NodeWrite C) (nodes : List (WorkflowNode C))
      → (item.node_key == k) ≡ false
      → find
          (has_node_key k)
          (modify_first (has_node_key item.node_key) (rewritten position item) nodes)
        ≡ find (has_node_key k) nodes
  modify-other position k item [] h = refl
  modify-other position k item (x ∷ xs) h = ground (arith, modify-other position k item xs h)

  append-other :
      (k : ℕ) (n : WorkflowNode C) (nodes : List (WorkflowNode C))
      → (n.node_key == k) ≡ false
      → find (has_node_key k) (nodes ++ n ∷ []) ≡ find (has_node_key k) nodes
  append-other k n [] h = ground arith
  append-other k n (x ∷ xs) h = ground (arith, append-other k n xs h)

  write-own :
      (existing nodes : List (WorkflowNode C)) (i position : ℕ) (item : NodeWrite C)
      → All HasOrderedFiles nodes
      → any (has_node_key item.node_key) nodes ≡ any (has_node_key item.node_key) existing
      → (n : WorkflowNode C) × (find
            (has_node_key item.node_key)
            (write_node existing i position item nodes)
          ≡ some n)
        × IsNodeOf position item n
  unfolding write_node
  write-own existing nodes i position item l h =
      elim (Bool-cases (any (has_node_key item.node_key) existing)) [
        | inl e ↦ rw e (modify-own position item nodes l (h ∙ e))
        | inr e ↦ rw e (
          new_node i position item,
          append-own i position item nodes (h ∙ e),
          new_node-IsNodeOf i position item,
        )
      ]

  write_node-HasOrderedFiles :
      (existing nodes : List (WorkflowNode C)) (i position : ℕ) (item : NodeWrite C)
      → All HasOrderedFiles nodes
      → All HasOrderedFiles (write_node existing i position item nodes)
  unfolding write_node
  write_node-HasOrderedFiles existing nodes i position item l =
      if-both (All HasOrderedFiles) (any (has_node_key item.node_key) existing)
        (All-modify_first HasOrderedFiles (has_node_key item.node_key) (rewritten position item)
          (λ n _. sync_node_contract_files-IsOrdered (or_empty item.contract_file_ids) (record {
            node_type = item.node_type;
            contract_file_links = n.contract_file_links;
            contract_file_ids = item.contract_file_ids;
          }))
          nodes l)
        (All-append HasOrderedFiles nodes (new_node i position item) l (
          sync_node_contract_files-IsOrdered (or_empty item.contract_file_ids) (record {
            node_type = item.node_type;
            contract_file_links = [];
            contract_file_ids = item.contract_file_ids;
          })))

  write-other :
      (existing nodes : List (WorkflowNode C)) (i position k : ℕ) (item : NodeWrite C)
      → (item.node_key == k) ≡ false
      → find (has_node_key k) (write_node existing i position item nodes)
        ≡ find (has_node_key k) nodes
  unfolding write_node
  write-other existing nodes i position k item h =
      if-both
        (λ (ns : List (WorkflowNode C)). find (has_node_key k) ns ≡ find (has_node_key k) nodes) _
        (modify-other position k item nodes h) (append-other k (new_node i position item) nodes h)

  any-find :
      (p : WorkflowNode C → Bool) (nodes : List (WorkflowNode C))
      → any p nodes ≡ is_some (find p nodes)
  any-find p [] = refl
  any-find p (x ∷ xs) = ground (arith, any-find p xs)

  any-write :
      (existing nodes : List (WorkflowNode C)) (i position k : ℕ) (item : NodeWrite C)
      → (item.node_key == k) ≡ false
      → any (has_node_key k) (write_node existing i position item nodes)
        ≡ any (has_node_key k) nodes
  any-write existing nodes i position k item h =
      any-find (has_node_key k) (write_node existing i position item nodes)
      ∙ (ap is_some (write-other existing nodes i position k item h)
          ∙ sym (any-find (has_node_key k) nodes))

  writes-other :
      (existing : List (WorkflowNode C)) (items : List (NodeWrite C))
      (nodes : List (WorkflowNode C)) (i position k : ℕ)
      → any (is_item k) items ≡ false
      → find (has_node_key k) (write_nodes existing i position items nodes)
        ≡ find (has_node_key k) nodes
  unfolding write_nodes
  writes-other existing [] nodes i position k h = refl
  writes-other existing (item ∷ items) nodes i position k h =
      writes-other existing items (write_node existing i position item nodes) (i + 1) (position + 1)
        k (ground (arith, h))
      ∙ write-other existing nodes i position k item (ground (arith, h))

  -- the items that are still to come find what they found at first
  abbrev AreUntouched : List (NodeWrite C) → List (WorkflowNode C) → List (WorkflowNode C) → Type 0
  AreUntouched [] existing nodes = Unit
  AreUntouched (item ∷ items) existing nodes =
      (any (has_node_key item.node_key) nodes ≡ any (has_node_key item.node_key) existing)
      × AreUntouched items existing nodes

  AreUntouched-write :
      (existing nodes : List (WorkflowNode C)) (i position : ℕ) (item : NodeWrite C)
      (items : List (NodeWrite C))
      → any (is_item item.node_key) items ≡ false
      → AreUntouched items existing nodes
      → AreUntouched items existing (write_node existing i position item nodes)
  AreUntouched-write existing nodes i position item [] h u = tt
  AreUntouched-write existing nodes i position item (x ∷ xs) h u = (
    any-write existing nodes i position x.node_key item (ground (arith, h)) ∙ u.0,
    AreUntouched-write existing nodes i position item xs (ground (arith, h)) u.1,
  )

  pub write_nodes-ArePlaced :
      (existing nodes : List (WorkflowNode C)) (i position : ℕ) (items : List (NodeWrite C))
      → All HasOrderedFiles nodes
      → HaveOwnKeys items
      → AreUntouched items existing nodes
      → ArePlaced position items (write_nodes existing i position items nodes)
  unfolding write_nodes
  write_nodes-ArePlaced existing nodes i position [] l h u = tt
  write_nodes-ArePlaced existing nodes i position (item ∷ items) l h u =
      let (n, f, g) = write-own existing nodes i position item l u.0 in
      (
        (
          n,
          writes-other existing items (write_node existing i position item nodes) (i + 1)
                (position + 1) item.node_key h.0
              ∙ f,
          g,
        ),
        write_nodes-ArePlaced existing (write_node existing i position item nodes) (i + 1)
            (position + 1) items (write_node-HasOrderedFiles existing nodes i position item l) h.1
            (AreUntouched-write existing nodes i position item items h.0 u.1),
      )

  pub untouched :
      (items : List (NodeWrite C)) (nodes : List (WorkflowNode C)) → AreUntouched items nodes nodes
  untouched [] nodes = tt
  untouched (x ∷ xs) nodes = (refl, untouched xs nodes)
