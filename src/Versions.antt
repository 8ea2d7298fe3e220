-- ===== src/Versions.antt =====
-- The versions of a scenario's workflow: `create_draft`, `clone_published_to_draft`,
-- `create_next_version`, `copy_version_contents`, `is_version_head` of
-- backend/app/services/workflow_core.py and `publish` of
-- backend/app/services/workflow_publishing.py. The configuration of a node, without the key
-- `contract_file_ids`, is a type of its own. Names of nodes and authors of versions are not modelled.
pub mod Numbers
pub mod Drafts
pub mod Structure
pub mod Requests
pub mod Steps
use open_slt.Prelude.{
  ℕ, ◌+◌, max, Bool, true, false, not, ◌&&◌, Option, none, some, List, [], ◌∷◌, ◌++◌, map,
  if◌then◌else◌, ◌==◌, same, find, is_none,
}
use open_slt.Errors.{
  Error, workflow_error, workflow_not_found, workflow_draft_exists, workflow_validation_failed,
  Result, ok, raised, is_ok,
}
use open_slt.Domain.{NodeType, NodeType-discrete, order_preparation, Link}
use open_slt.Relations.{
  Owner, NodeOwner, or_empty, sync_resources, resource_ids, node_contract_file_ids,
  sync_node_contract_files,
}

pub data VersionStatus : Type 0 where
  draft published retired archived : VersionStatus

unfoldable pub VersionStatus-discrete : Discrete VersionStatus
VersionStatus-discrete = hlevel

-- `ScenarioWorkflowNode`.
pub record WorkflowNode (C : Type 0) : Type 0 where
  pub id : ℕ
  pub node_key : ℕ
  pub position : ℕ
  pub node_type : NodeType
  pub config : C
  pub contract_file_ids : Option (List ℕ)
  pub contract_file_links : List Link

-- `ScenarioWorkflowVersion`.
pub record Version (C : Type 0) : Type 0 where
  pub id : ℕ
  pub scenario_id : ℕ
  pub version_no : ℕ
  pub generation_no : ℕ
  pub status : VersionStatus
  pub revision : ℕ
  pub resources : Owner
  pub nodes : List (WorkflowNode C)

-- The columns of `TestScenario` that belong to its workflow.
pub record Scenario : Type 0 where
  pub id : ℕ
  pub draft_workflow_version_id : Option ℕ
  pub published_workflow_version_id : Option ℕ
  pub is_enabled : Bool
  pub is_archived : Bool
  pub resources : Owner

-- One scenario and the table of versions, with the next ids of its rows.
pub record Workspace (C : Type 0) : Type 0 where
  pub scenario : Scenario
  pub versions : List (Version C)
  pub next_id : ℕ
  pub next_node_id : ℕ

-- `config.get("contract_file_ids")` of `node_config_with_relations`.
abbrev pub related_ids : NodeOwner → Option (List ℕ)
related_ids files =
    if same NodeType-discrete files.node_type order_preparation
    then some (node_contract_file_ids files)
    else files.contract_file_ids

abbrev pub copied_files : NodeOwner → NodeOwner
copied_files files = sync_node_contract_files (or_empty (related_ids files)) (record {
  node_type = files.node_type;
  contract_file_links = [];
  contract_file_ids = related_ids files;
})

abbrev no_resources : Owner
no_resources = record { links = []; legacy_ids = [] }

abbrev pub disable : Scenario → Scenario
disable scenario = record scenario { is_enabled = false }

module _ {C : Type 0} where
  abbrev pub has_version_id : ℕ → Version C → Bool
  has_version_id i v = v.id == i

  abbrev pub is_of : ℕ → Version C → Bool
  is_of scenario v = v.scenario_id == scenario

  abbrev pub is_numbered : ℕ → ℕ → Version C → Bool
  is_numbered scenario n v = v.scenario_id == scenario && v.version_no == n

  -- `func.max(...)` over the rows of a query, `or 0`.
  pub largest : (Version C → Bool) → (Version C → ℕ) → List (Version C) → ℕ
  largest p number [] = 0
  largest p number (v ∷ vs) =
      let rest = largest p number vs in if p v then max (number v) rest else rest

  abbrev pub new_version : ℕ → ℕ → List ℕ → Workspace C → Version C
  new_version n g ids w = record {
    id = w.next_id;
    scenario_id = w.scenario.id;
    version_no = n;
    generation_no = g;
    status = draft;
    revision = 1;
    resources = sync_resources ids no_resources;
    nodes = [];
  }

  -- `db.add(draft)`, `db.flush()`, and the scenario's pointer to it.
  pub add_version : Version C → Workspace C → Workspace C
  add_version v w = record w {
    versions = w.versions ++ v ∷ [];
    next_id = w.next_id + 1;
    scenario = record (w.scenario) { draft_workflow_version_id = some v.id };
  }

  unfoldable pub create_draft : List ℕ → Workspace C → Version C × Workspace C
  unfolding largest add_version
  create_draft ids w =
      let v =
        new_version (largest (is_of w.scenario.id) (λ v. v.version_no) w.versions + 1) 1 ids w in
      let added = add_version v w in
      (
        v,
        if is_none w.scenario.published_workflow_version_id
            then (record added { scenario = disable added.scenario })
            else added,
      )

  -- A node with its two ways of naming contract files.
  abbrev pub files_of : WorkflowNode C → NodeOwner
  files_of n = record {
    node_type = n.node_type;
    contract_file_links = n.contract_file_links;
    contract_file_ids = n.contract_file_ids;
  }

  abbrev pub with_files : NodeOwner → WorkflowNode C → WorkflowNode C
  with_files files n = record n {
    contract_file_ids = files.contract_file_ids;
    contract_file_links = files.contract_file_links;
  }

  -- A node is copied with a key of its own, which `uuid4` gives.
  pub copy_nodes : (ℕ → ℕ) → ℕ → List (WorkflowNode C) → List (WorkflowNode C)
  copy_nodes uuid next [] = []
  copy_nodes uuid next (x ∷ xs) =
      with_files (copied_files (files_of x)) (record x { id = next; node_key = uuid next })
      ∷ copy_nodes uuid (next + 1) xs

  pub node_count : List (WorkflowNode C) → ℕ
  node_count [] = 0
  node_count (x ∷ xs) = node_count xs + 1

  abbrev pub update_version : ℕ → (Version C → Version C) → List (Version C) → List (Version C)
  update_version i f = map (λ v. if has_version_id i v then f v else v)

  unfoldable pub copy_version_contents : (ℕ → ℕ) → Version C → Version C → Workspace C → Workspace C
  unfolding copy_nodes node_count
  copy_version_contents uuid source target w = record w {
    versions =
        update_version target.id
          (λ v. record v { nodes = v.nodes ++ copy_nodes uuid w.next_node_id source.nodes })
          w.versions;
    next_node_id = w.next_node_id + node_count source.nodes;
  }

  unfoldable pub load_version : ℕ → Workspace C → Result (Version C)
  load_version i w = elim (find (has_version_id i) w.versions) [
    | none ↦ raised (workflow_error workflow_not_found 404)
    | some v ↦ ok v
  ]

  -- The published version is cloned under the next number of its generations.
  pub clone_of : (ℕ → ℕ) → Version C → Workspace C → Version C × Workspace C
  unfolding largest add_version
  clone_of uuid source w =
      let v =
        new_version source.version_no
          (largest (is_numbered w.scenario.id source.version_no) (λ v. v.generation_no) w.versions
            + 1)
          (resource_ids source.resources) w in
      let added = add_version v w in
      (v, copy_version_contents uuid source v (record added { scenario = disable added.scenario }))

  pub with_loaded :
      (Version C → Workspace C → Version C × Workspace C)
      → Result (Version C)
      → Workspace C
      → Result (Version C) × Workspace C
  with_loaded f (ok v) w = let (made, after) = f v w in (ok made, after)
  with_loaded f (raised e) w = (raised e, w)

  pub clone_of_published : (ℕ → ℕ) → Option ℕ → Workspace C → Result (Version C) × Workspace C
  unfolding clone_of with_loaded
  clone_of_published uuid none w =
      let (v, after) = create_draft (resource_ids w.scenario.resources) w in (ok v, after)
  clone_of_published uuid (some i) w = with_loaded (clone_of uuid) (load_version i w) w

  pub existing_or_clone : (ℕ → ℕ) → Option ℕ → Workspace C → Result (Version C) × Workspace C
  unfolding clone_of_published
  existing_or_clone uuid none w = clone_of_published uuid w.scenario.published_workflow_version_id w
  existing_or_clone uuid (some i) w = (load_version i w, w)

  unfoldable pub clone_published_to_draft : (ℕ → ℕ) → Workspace C → Result (Version C) × Workspace C
  unfolding existing_or_clone
  clone_published_to_draft uuid w = existing_or_clone uuid w.scenario.draft_workflow_version_id w

  abbrev pub set_version_status : VersionStatus → Version C → Version C
  set_version_status s v = record v { status = s }

  -- `if published and published.status == "published": published.status = "retired"`.
  pub retire_published : Option ℕ → List (Version C) → List (Version C)
  unfolding VersionStatus-discrete
  retire_published none vs = vs
  retire_published (some i) vs =
      update_version i
        (λ v.
          if same VersionStatus-discrete v.status published
          then set_version_status retired v
          else v)
        vs

  -- The part of `create_next_version` below its guards.
  pub next_of : (ℕ → ℕ) → Version C → Workspace C → Version C × Workspace C
  unfolding retire_published
  next_of uuid source w =
      let (v, made) = create_draft (resource_ids source.resources) w in
      let copied = copy_version_contents uuid source v made in
      (
        v,
        record copied {
          versions = retire_published copied.scenario.published_workflow_version_id copied.versions;
          scenario = disable copied.scenario;
        },
      )

  unfoldable pub create_next_version :
      (ℕ → ℕ) → Version C → Workspace C → Result (Version C) × Workspace C
  unfolding next_of
  create_next_version uuid source w =
      if not (is_none w.scenario.draft_workflow_version_id)
      then (raised (workflow_error workflow_draft_exists 409), w)
      else if not (is_of w.scenario.id source)
      then (raised (workflow_error workflow_not_found 404), w)
      else (ok (next_of uuid source w).0, (next_of uuid source w).1)

  -- Whether it is the latest generation of its number.
  unfoldable pub is_version_head : Version C → Workspace C → Bool
  unfolding largest
  is_version_head v w =
      v.generation_no
      == largest (is_numbered v.scenario_id v.version_no) (λ v. v.generation_no) w.versions

  -- `if previous and previous.version_no != version.version_no: previous.status = "retired"`.
  pub retire_other : Option ℕ → Version C → List (Version C) → List (Version C)
  retire_other none version vs = vs
  retire_other (some i) version vs =
      update_version i
        (λ v. if not (v.version_no == version.version_no) then set_version_status retired v else v)
        vs

  -- The configurations of the nodes after the check, such as the checksums of the files they name.
  pub with_configs : (WorkflowNode C → C) → Version C → Version C
  with_configs configs v = record v {
    nodes =
        map
          (λ (n : WorkflowNode C). record n {
            config = configs n;
            contract_file_ids = related_ids (files_of n);
          })
          v.nodes;
  }

  pub published_in : (WorkflowNode C → C) → Version C → Workspace C → Workspace C
  unfolding retire_other with_configs
  published_in configs version w = record w {
    versions =
        update_version version.id (λ v. set_version_status published (with_configs configs v))
          (retire_other w.scenario.published_workflow_version_id version w.versions);
    scenario = record (w.scenario) {
      published_workflow_version_id = some version.id;
      draft_workflow_version_id = none;
      is_enabled = true;
      is_archived = false;
      resources = sync_resources (resource_ids version.resources) w.scenario.resources;
    };
  }

  pub publish_checked :
      Option (WorkflowNode C → C) → Version C → Workspace C → Result (Unit {0}) × Workspace C
  unfolding published_in
  publish_checked none version w = (raised (workflow_error workflow_validation_failed 422), w)
  publish_checked (some configs) version w = (ok tt, published_in configs version w)

  -- `publish`. The check of the version and of the files that it names, and the writing of those files,
  -- is a parameter: it finds errors, or gives the configurations of the nodes afterwards.
  unfoldable pub publish :
      (Version C → Option (WorkflowNode C → C))
      → Version C
      → Workspace C
      → Result (Unit {0}) × Workspace C
  unfolding publish_checked
  publish check version w = publish_checked (check version) version w
