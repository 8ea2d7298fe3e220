-- ===== src/Versions/Drafts/Placing.antt =====
-- What `replace_draft` of backend/app/services/workflow_core.py leaves of a draft, and what a second
-- editor meets.
use open_slt.Prelude.{
  if◌then◌else◌, count_if, ℕ, ◌+◌, Bool, true, false, ◌≡◌, refl, List, [], ◌∷◌, ◌==◌, any, All,
  select, arith, if-both, same,
}
use open_slt.Errors.{workflow_error, workflow_revision_conflict, ok, raised}
use open_slt.Versions.Drafts.Keys.{HaveOwnKeys, HaveOneKey, count-replaced}
use open_slt.Versions.{WorkflowNode, Version, Workspace, VersionStatus-discrete, draft}
use open_slt.Versions.Drafts.{
  NodeWrite, has_node_key, is_item, kept_nodes, write_nodes, replaced_nodes, replaced,
  replace_draft,
}
use open_slt.Versions.Drafts.Writing.{ArePlaced, HasOrderedFiles, write_nodes-ArePlaced, untouched}

module _ {C : Type 0} where
  replaced_lem :
      (expected : ℕ) (ids : List ℕ) (items : List (NodeWrite C)) (v v' : Version C)
      (w w' : Workspace C)
      → replace_draft expected ids items v w ≡ (ok v', w')
      → (v'.status ≡ draft) × (v'.revision ≡ expected + 1)
  unfolding replace_draft replaced
  replaced_lem expected ids items v v' w w' h = ground (arith, h)

  replaced-nodes :
      (expected : ℕ) (ids : List ℕ) (items : List (NodeWrite C)) (v v' : Version C)
      (w w' : Workspace C)
      → replace_draft expected ids items v w ≡ (ok v', w')
      → v'.nodes
        ≡ write_nodes (kept_nodes items v.nodes) w.next_node_id 1 items (kept_nodes items v.nodes)
  unfolding replace_draft replaced replaced_nodes
  replaced-nodes expected ids items v v' w w' h = ground (arith, h)

  -- Of two editors who have loaded one revision of a draft, the second to save is refused with a
  -- conflict (409), and changes nothing.
  pub replace_draft_twice :
      (expected : ℕ) (ids ids' : List ℕ) (items items' : List (NodeWrite C)) (v v' : Version C)
      (w w' : Workspace C)
      → replace_draft expected ids items v w ≡ (ok v', w')
      → replace_draft expected ids' items' v' w'
        ≡ (raised (workflow_error workflow_revision_conflict 409), w')
  unfolding replace_draft replaced
  replace_draft_twice expected ids ids' items items' v v' w w' h = rw (is_draft, is_newer) refl
    where
      is_draft : same VersionStatus-discrete v'.status draft ≡ true
      is_draft = ground (arith, (replaced_lem expected ids items v v' w w' h).0)

      is_newer : (v'.revision == expected) ≡ false
      is_newer = ground (arith, (replaced_lem expected ids items v v' w w' h).1)

  All-select :
      (p : WorkflowNode C → Bool) (nodes : List (WorkflowNode C))
      → All HasOrderedFiles nodes
      → All HasOrderedFiles (select p nodes)
  All-select p [] l = tt
  All-select p (x ∷ xs) l =
      if-both (All HasOrderedFiles) (p x) (l.0, All-select p xs l.1) (All-select p xs l.1)

  kept_nodes-HasOrderedFiles :
      (items : List (NodeWrite C)) (nodes : List (WorkflowNode C))
      → All HasOrderedFiles nodes
      → All HasOrderedFiles (kept_nodes items nodes)
  unfolding kept_nodes
  kept_nodes-HasOrderedFiles items nodes l =
      All-select (λ n. any (is_item n.node_key) items) nodes l

  -- A saved draft has exactly the nodes of the request: for each item one node under its key, whose
  -- position is that of the item in the request, from 1 on, whose type and configuration are the item's,
  -- and whose contract files are those of the item if it prepares orders, otherwise none; and it has no
  -- node under another key. The keys of the request must be distinct, those of the nodes before too, and
  -- the links of these nodes must have been loaded in the order of their positions.
  pub replace_draft-ArePlaced :
      (expected : ℕ) (ids : List ℕ) (items : List (NodeWrite C)) (v v' : Version C)
      (w w' : Workspace C)
      → replace_draft expected ids items v w ≡ (ok v', w')
      → HaveOwnKeys items
      → HaveOneKey v.nodes
      → All HasOrderedFiles v.nodes
      → ArePlaced 1 items v'.nodes
        × ((k : ℕ) → count_if (has_node_key k) v'.nodes ≡ (if any (is_item k) items then 1 else 0))
  replace_draft-ArePlaced expected ids items v v' w w' h own one l =
      rw (replaced-nodes expected ids items v v' w w' h) (
        write_nodes-ArePlaced (kept_nodes items v.nodes) (kept_nodes items v.nodes) w.next_node_id 1
            items (kept_nodes-HasOrderedFiles items v.nodes l) own
            (untouched items (kept_nodes items v.nodes)),
        count-replaced items v.nodes w.next_node_id own one,
      )
