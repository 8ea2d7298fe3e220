-- ===== src/Relations/Drift.antt =====
-- Finding and repairing rows whose two ways of storage differ
-- (backend/app/services/relation_consistency.py). The JSON lists are lists of numbers, as all the
-- services write them.
pub mod Repair
pub mod Tables
pub mod Repairing
use open_slt.Prelude.{
  ℕ, zero, ◌+◌, Bool, true, false, not, ◌&&◌, Option, none, some, List, [], ◌∷◌, ◌++◌,
  if◌then◌else◌, ltb, ◌==◌, mem, ℕ_discrete, length, modify_first,
}
use open_slt.Errors.{Error, value_error, Result, ok, raised}
use open_slt.Domain.{Link, TestRun}
use open_slt.Relations.{
  Owner, NodeOwner, ordered_ids, or_empty, same_ids, sync_resources, sync_run_resources,
  sync_node_contract_files,
}

pub data Relation : Type 0 where
  plan_resources scenario_resources workflow_version_resources run_resources : Relation
  workflow_node_contract_files : Relation

pub record RelationDrift : Type 0 where
  pub relation : Relation
  pub owner_id : ℕ
  pub legacy_ids : List ℕ
  pub normalized_ids : List ℕ

-- The loop of `_ids`: the positive numbers, each once.
unfoldable pub new_ids : List ℕ → List ℕ → List ℕ
new_ids seen [] = []
new_ids seen (x ∷ xs) =
    let kept = new_ids (x ∷ seen) xs in
    let skipped = new_ids seen xs in
    if ltb 0 x && not (mem ℕ_discrete x seen) then x ∷ kept else skipped

-- `_ids`.
abbrev pub json_ids : List ℕ → List ℕ
json_ids = new_ids []

-- The drift of one row, if there is any. `_link_ids` is the same as `_ordered_ids`.
unfoldable pub drift_of : Relation → ℕ → List ℕ → List Link → List RelationDrift
unfolding new_ids same_ids
drift_of relation owner_id legacy links =
    if same_ids (json_ids legacy) (ordered_ids links)
    then []
    else record {
      relation = relation;
      owner_id = owner_id;
      legacy_ids = json_ids legacy;
      normalized_ids = ordered_ids links;
    }
      ∷ []

-- A plan, a scenario or a workflow version with its number, and a node with its number.
pub record OwnerRow : Type 0 where
  pub id : ℕ
  pub owner : Owner

pub record NodeRow : Type 0 where
  pub id : ℕ
  pub node : NodeOwner

pub record RelationTables : Type 0 where
  pub plans : List OwnerRow
  pub scenarios : List OwnerRow
  pub workflow_versions : List OwnerRow
  pub runs : List TestRun
  pub nodes : List NodeRow

unfoldable pub owner_drifts : Relation → List OwnerRow → List RelationDrift
unfolding drift_of
owner_drifts relation [] = []
owner_drifts relation (r ∷ rs) =
    drift_of relation r.id r.owner.legacy_ids r.owner.links ++ owner_drifts relation rs

unfoldable pub run_drifts : List TestRun → List RelationDrift
unfolding drift_of
run_drifts [] = []
run_drifts (r ∷ rs) = drift_of run_resources r.id r.resource_ids r.resource_links ++ run_drifts rs

unfoldable pub node_drifts : List NodeRow → List RelationDrift
unfolding drift_of
node_drifts [] = []
node_drifts (r ∷ rs) =
    drift_of workflow_node_contract_files r.id (or_empty r.node.contract_file_ids)
      r.node.contract_file_links
    ++ node_drifts rs

unfoldable pub find_relation_drifts : RelationTables → List RelationDrift
unfolding owner_drifts run_drifts node_drifts
find_relation_drifts t =
    owner_drifts plan_resources t.plans
    ++ owner_drifts scenario_resources t.scenarios
    ++ owner_drifts workflow_version_resources t.workflow_versions
    ++ run_drifts t.runs
    ++ node_drifts t.nodes

pub data Source : Type 0 where
  relations json : Source
  other_source : ℕ → Source

-- `drift.normalized_ids if source == "relations" else drift.legacy_ids`.
unfoldable pub repair_values : Source → RelationDrift → List ℕ
repair_values relations d = d.normalized_ids
repair_values _ d = d.legacy_ids

unfoldable pub sync_row : List ℕ → OwnerRow → OwnerRow
sync_row ids r = record r { owner = sync_resources ids r.owner }

unfoldable pub sync_node : List ℕ → NodeRow → NodeRow
sync_node ids r = record r { node = sync_node_contract_files ids r.node }

unfoldable pub repair : Relation → ℕ → List ℕ → RelationTables → RelationTables
unfolding sync_row sync_node
repair plan_resources i ids t = record t {
  plans = modify_first (λ r. r.id == i) (sync_row ids) t.plans;
}
repair scenario_resources i ids t = record t {
  scenarios = modify_first (λ r. r.id == i) (sync_row ids) t.scenarios;
}
repair workflow_version_resources i ids t = record t {
  workflow_versions = modify_first (λ r. r.id == i) (sync_row ids) t.workflow_versions;
}
repair run_resources i ids t = record t {
  runs = modify_first (λ r. r.id == i) (sync_run_resources ids) t.runs;
}
repair workflow_node_contract_files i ids t = record t {
  nodes = modify_first (λ r. r.id == i) (sync_node ids) t.nodes;
}

unfoldable pub repair_all : Source → List RelationDrift → RelationTables → RelationTables
unfolding repair repair_values
repair_all source [] t = t
repair_all source (d ∷ ds) t =
    repair_all source ds (repair d.relation d.owner_id (repair_values source d) t)

-- The number of drifts, and the tables afterwards.
unfoldable pub repair_relation_drifts : Source → RelationTables → Result ℕ × RelationTables
unfolding find_relation_drifts repair_all
repair_relation_drifts (other_source _) t = (raised value_error, t)
repair_relation_drifts source t =
    (ok (length (find_relation_drifts t)), repair_all source (find_relation_drifts t) t)
