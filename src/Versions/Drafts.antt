-- ===== src/Versions/Drafts.antt =====
-- `replace_draft` of backend/app/services/workflow_core.py: an editor's nodes take the place of those
-- of a draft. The names of nodes and the scenario's list of resource types are not modelled.
pub mod Keys
pub mod Writing
pub mod Placing
use open_slt.Prelude.{
  ℕ, Option, ◌+◌, Bool, true, false, not, List, [], ◌∷◌, ◌++◌, if◌then◌else◌, ◌==◌, same, any, find,
  select, modify_first,
}
use open_slt.Errors.{
  workflow_error, workflow_not_draft, workflow_revision_conflict, Result, ok, raised,
}
use open_slt.Domain.{NodeType, Link}
use open_slt.Relations.{NodeOwner, or_empty, sync_resources, sync_node_contract_files}
use open_slt.Versions.{
  WorkflowNode, with_files, Version, Workspace, VersionStatus-discrete, draft, update_version,
}

-- An item of the request: `node_key`, `node_type` and `config`, whose key `contract_file_ids` stands
-- apart.
pub record NodeWrite (C : Type 0) : Type 0 where
  pub node_key : ℕ
  pub node_type : NodeType
  pub config : C
  pub contract_file_ids : Option (List ℕ)

module _ {C : Type 0} where
  abbrev pub has_node_key : ℕ → WorkflowNode C → Bool
  has_node_key k n = n.node_key == k

  abbrev pub is_item : ℕ → NodeWrite C → Bool
  is_item k item = item.node_key == k

  -- `if key not in incoming_keys: version.nodes.remove(node)`.
  unfoldable pub kept_nodes : List (NodeWrite C) → List (WorkflowNode C) → List (WorkflowNode C)
  kept_nodes items nodes = select (λ n. any (is_item n.node_key) items) nodes

  -- `sync_node_contract_files(node, config.get("contract_file_ids") or [])`.
  abbrev pub asked_files : NodeWrite C → List Link → NodeOwner
  asked_files item links = sync_node_contract_files (or_empty item.contract_file_ids) (record {
    node_type = item.node_type;
    contract_file_links = links;
    contract_file_ids = item.contract_file_ids;
  })

  abbrev pub rewritten : ℕ → NodeWrite C → WorkflowNode C → WorkflowNode C
  rewritten position item n =
      with_files (asked_files item n.contract_file_links)
        (record n { position = position; node_type = item.node_type; config = item.config })

  abbrev pub new_node : ℕ → ℕ → NodeWrite C → WorkflowNode C
  new_node i position item = with_files (asked_files item []) (record {
    id = i;
    node_key = item.node_key;
    position = position;
    node_type = item.node_type;
    config = item.config;
    contract_file_ids = item.contract_file_ids;
    contract_file_links = [];
  })

  -- One turn of the loop: a node that was there is written anew, and another one is appended.
  unfoldable pub write_node :
      List (WorkflowNode C) → ℕ → ℕ → NodeWrite C → List (WorkflowNode C) → List (WorkflowNode C)
  write_node existing i position item nodes =
      if any (has_node_key item.node_key) existing
      then modify_first (has_node_key item.node_key) (rewritten position item) nodes
      else nodes ++ new_node i position item ∷ []

  -- `for position, item in enumerate(nodes, 1)`; the ids of new nodes are fresh.
  unfoldable pub write_nodes :
      List (WorkflowNode C)
      → ℕ
      → ℕ
      → List (NodeWrite C)
      → List (WorkflowNode C)
      → List (WorkflowNode C)
  unfolding write_node
  write_nodes existing i position [] nodes = nodes
  write_nodes existing i position (item ∷ items) nodes =
      write_nodes existing (i + 1) (position + 1) items (write_node existing i position item nodes)

  pub item_count : List (NodeWrite C) → ℕ
  item_count [] = 0
  item_count (x ∷ xs) = item_count xs + 1

  unfoldable pub replaced_nodes :
      ℕ → List (NodeWrite C) → List (WorkflowNode C) → List (WorkflowNode C)
  unfolding kept_nodes write_nodes
  replaced_nodes i items nodes =
      write_nodes (kept_nodes items nodes) i 1 items (kept_nodes items nodes)

  unfoldable pub replaced : ℕ → List ℕ → List (NodeWrite C) → Version C → Version C
  unfolding replaced_nodes
  replaced i ids items v = record v {
    resources = sync_resources ids v.resources;
    nodes = replaced_nodes i items v.nodes;
    revision = v.revision + 1;
  }

  -- `replace_draft`; the result is the version afterwards.
  unfoldable pub replace_draft :
      ℕ → List ℕ → List (NodeWrite C) → Version C → Workspace C → Result (Version C) × Workspace C
  unfolding replaced item_count VersionStatus-discrete
  replace_draft expected ids items v w =
      if not (same VersionStatus-discrete v.status draft)
      then (raised (workflow_error workflow_not_draft 409), w)
      else if not (v.revision == expected)
      then (raised (workflow_error workflow_revision_conflict 409), w)
      else (
        ok (replaced w.next_node_id ids items v),
        record w {
          versions = update_version v.id (replaced w.next_node_id ids items) w.versions;
          next_node_id = w.next_node_id + item_count items;
          scenario = record (w.scenario) { resources = sync_resources ids w.scenario.resources };
        },
      )
