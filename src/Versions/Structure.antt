-- ===== src/Versions/Structure.antt =====
-- `validate_structure` of backend/app/services/workflow_core.py: what it asks of the nodes of a version
-- together. What it asks of one node alone is a parameter.
pub mod Reports
use open_slt.Prelude.{
  ℕ, Bool, true, false, not, ◌&&◌, ◌||◌, List, [], ◌∷◌, ◌++◌, map, if◌then◌else◌, ◌==◌, ltb, same,
  any, select,
}
use open_slt.Domain.{NodeType, NodeType-discrete, report_generation, data_statistics}
use open_slt.Versions.{WorkflowNode}

-- The errors that the check lists, with the `node_key` of the node that they are about.
pub data Issue : Type 0 where
  no_nodes : Issue
  second_report report_not_last report_without_statistics : ℕ → Issue
  about_node : ℕ → Issue

abbrev pub when_true : Bool → Issue → List Issue
when_true b issue = if b then issue ∷ [] else []

module _ {C : Type 0} where
  abbrev pub is_type : NodeType → WorkflowNode C → Bool
  is_type t n = same NodeType-discrete n.node_type t

  -- `(item.position, item.id or 0)` is greater.
  abbrev pub is_after : WorkflowNode C → WorkflowNode C → Bool
  is_after x y = ltb y.position x.position || (x.position == y.position && ltb y.id x.id)

  -- `sorted(version.nodes, key=...)[-1]`: the greatest, and of equals the last.
  unfoldable pub last_node : WorkflowNode C → List (WorkflowNode C) → WorkflowNode C
  last_node x [] = x
  last_node x (y ∷ ys) = last_node (if is_after x y then x else y) ys

  abbrev pub has_statistics_before : WorkflowNode C → List (WorkflowNode C) → Bool
  has_statistics_before report nodes =
      any (λ n. is_type data_statistics n && ltb n.position report.position) nodes

  unfoldable pub position_issues : WorkflowNode C → List (WorkflowNode C) → List Issue
  position_issues report [] = []
  position_issues report (x ∷ xs) =
      when_true (not ((last_node x xs).id == report.id)) (report_not_last report.node_key)
      ++ when_true (not (has_statistics_before report (x ∷ xs)))
          (report_without_statistics report.node_key)

  pub second_reports : List (WorkflowNode C) → List Issue
  second_reports [] = []
  second_reports (x ∷ xs) = second_report x.node_key ∷ second_reports xs

  -- By the report nodes: one has its place, and of several all but the first are errors.
  unfoldable pub report_issues : List (WorkflowNode C) → List (WorkflowNode C) → List Issue
  unfolding position_issues second_reports
  report_issues [] nodes = []
  report_issues (r ∷ []) nodes = position_issues r nodes
  report_issues (r ∷ s ∷ rs) nodes = second_reports (s ∷ rs)

  unfoldable pub node_issues : (WorkflowNode C → List Issue) → List (WorkflowNode C) → List Issue
  node_issues check [] = []
  node_issues check (x ∷ xs) = check x ++ node_issues check xs

  unfoldable pub has_no_nodes : List (WorkflowNode C) → List Issue
  has_no_nodes [] = no_nodes ∷ []
  has_no_nodes (x ∷ xs) = []

  unfoldable pub validate_structure :
      (WorkflowNode C → List Issue) → List (WorkflowNode C) → List Issue
  unfolding has_no_nodes report_issues node_issues
  validate_structure check nodes =
      has_no_nodes nodes
      ++ (report_issues (select (is_type report_generation) nodes) nodes ++ node_issues check nodes)
