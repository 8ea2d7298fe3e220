-- ===== src/Examples/Editing.antt =====
-- The theorems about the versions of workflows: one that is edited, checked and published.
use open_slt.Prelude.{
  arith, ℕ, ◌+◌, true, false, ◌≡◌, refl, none, some, List, [], ◌∷◌, count_if, any, if◌then◌else◌,
}
use open_slt.Domain.{
  NodeType-discrete, server_config, order_preparation, data_statistics, report_generation,
}
use open_slt.Errors.{ok, raised, workflow_error, workflow_revision_conflict}
use open_slt.Versions.{
  VersionStatus-discrete, WorkflowNode, Version, Workspace, draft, create_next_version,
}
use open_slt.Versions.Numbers.{HasNumbers}
use open_slt.Versions.Steps.{
  no_step, then_step, version_created, draft_saved, VersionSteps-HasNumbers,
}
use open_slt.Relations.{sync_resources, ordered_ids, replace_links, sync_node_contract_files}
use open_slt.Versions.Drafts.{
  NodeWrite, has_node_key, is_item, replace_draft, replaced, replaced_nodes, kept_nodes,
  write_nodes, write_node,
}
use open_slt.Versions.Drafts.Keys.{HaveOneKey}
use open_slt.Versions.Drafts.Writing.{ArePlaced}
use open_slt.Versions.Drafts.Placing.{replace_draft_twice, replace_draft-ArePlaced}
use open_slt.Versions.Structure.{
  validate_structure, has_no_nodes, report_issues, position_issues, last_node, node_issues, is_type,
  has_statistics_before,
}
use open_slt.Versions.Structure.Reports.{IsLast, validate_structure-IsLast}

abbrev node_of : ℕ → WorkflowNode ℕ
node_of k = record {
  id = k;
  node_key = k;
  position = k;
  node_type = server_config;
  config = 0;
  contract_file_ids = none;
  contract_file_links = [];
}

abbrev edited : Version ℕ
edited = record {
  id = 4;
  scenario_id = 1;
  version_no = 1;
  generation_no = 1;
  status = draft;
  revision = 3;
  resources = record { links = []; legacy_ids = [] };
  nodes = node_of 1 ∷ node_of 2 ∷ [];
}

abbrev desk : Workspace ℕ
desk = record {
  scenario = record {
    id = 1;
    draft_workflow_version_id = some 4;
    published_workflow_version_id = none;
    is_enabled = false;
    is_archived = false;
    resources = record { links = []; legacy_ids = [] };
  };
  versions = edited ∷ [];
  next_id = 5;
  next_node_id = 3;
}

-- the second node stays and moves up, and two are new
abbrev request : List (NodeWrite ℕ)
request =
    record {
      node_key = 2;
      node_type = order_preparation;
      config = 7;
      contract_file_ids = some (5 ∷ 6 ∷ []);
    }
    ∷ record { node_key = 8; node_type = data_statistics; config = 8; contract_file_ids = none }
    ∷ record {
      node_key = 9;
      node_type = report_generation;
      config = 9;
      contract_file_ids = some (5 ∷ []);
    }
    ∷ []

abbrev saved : Workspace ℕ
saved = (replace_draft 3 [] request edited desk).1

abbrev saved_nodes : List (WorkflowNode ℕ)
saved_nodes =
    record {
      id = 2;
      node_key = 2;
      position = 1;
      node_type = order_preparation;
      config = 7;
      contract_file_ids = some (5 ∷ 6 ∷ []);
      contract_file_links =
          record { value = 5; position = 1 } ∷ record { value = 6; position = 2 } ∷ [];
    }
    ∷ record {
      id = 4;
      node_key = 8;
      position = 2;
      node_type = data_statistics;
      config = 8;
      contract_file_ids = none;
      contract_file_links = [];
    }
    ∷ record {
      id = 5;
      node_key = 9;
      position = 3;
      node_type = report_generation;
      config = 9;
      contract_file_ids = none;
      contract_file_links = [];
    }
    ∷ []

abbrev saved_version : Version ℕ
saved_version = record edited { revision = 4; nodes = saved_nodes }

saves : replace_draft 3 [] request edited desk ≡ (ok saved_version, saved)
unfolding replace_draft VersionStatus-discrete sync_node_contract_files NodeType-discrete
    replace_links replaced replaced_nodes kept_nodes write_nodes write_node sync_resources
    ordered_ids
saves = refl

replace_draft_twice_example :
    replace_draft 3 [] [] saved_version saved
    ≡ (raised (workflow_error workflow_revision_conflict 409), saved)
replace_draft_twice_example =
    replace_draft_twice 3 [] [] request [] edited saved_version desk saved saves

one_key : HaveOneKey edited.nodes
one_key k = ground arith

replace_draft-ArePlaced_example :
    ArePlaced 1 request saved_nodes
    × ((k : ℕ) → count_if (has_node_key k) saved_nodes ≡ (if any (is_item k) request then 1 else 0))
replace_draft-ArePlaced_example =
    replace_draft-ArePlaced 3 [] request edited saved_version desk saved saves
      (refl, (refl, (refl, tt))) one_key (tt, (tt, tt))

VersionSteps-HasNumbers_example :
    HasNumbers (create_next_version (λ i. i + 100) saved_version saved).1
VersionSteps-HasNumbers_example =
    VersionSteps-HasNumbers desk (create_next_version (λ i. i + 100) saved_version saved).1
      (then_step (then_step (no_step desk) (draft_saved 3 [] request edited desk))
        (version_created (λ i. i + 100) saved_version saved))
      (refl, tt)

abbrev last_of_saved : WorkflowNode ℕ
last_of_saved = record {
  id = 5;
  node_key = 9;
  position = 3;
  node_type = report_generation;
  config = 9;
  contract_file_ids = none;
  contract_file_links = [];
}

checked : validate_structure (λ (n : WorkflowNode ℕ). []) saved_nodes ≡ []
unfolding validate_structure has_no_nodes report_issues position_issues last_node node_issues
    NodeType-discrete
checked = refl

validate_structure-IsLast_example :
    (count_if (is_type report_generation) saved_nodes ≡ 1)
    × IsLast last_of_saved saved_nodes
    × (has_statistics_before last_of_saved saved_nodes ≡ true)
unfolding NodeType-discrete
validate_structure-IsLast_example =
    validate_structure-IsLast (λ n. []) saved_nodes last_of_saved checked refl refl
