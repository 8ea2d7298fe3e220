-- ===== src/Relations/Drift/Repairing.antt =====
-- What `repair_relation_drifts` (backend/app/services/relation_consistency.py) leaves to find.
use open_slt.Prelude.{ℕ, false, ◌≡◌, ◌∙◌, refl, sym, ap, List, [], ◌∷◌, ◌++◌, map, All}
use open_slt.Domain.{TestRun}
use open_slt.Relations.{or_empty, sync_resources, sync_run_resources}
use open_slt.Relations.Drift.{
  Relation, plan_resources, scenario_resources, workflow_version_resources, run_resources,
  workflow_node_contract_files, RelationDrift, OwnerRow, NodeRow, RelationTables, Source, relations,
  json, owner_drifts, run_drifts, node_drifts, find_relation_drifts, sync_row, sync_node, repair,
  repair_all, repair_relation_drifts,
}
use open_slt.Relations.Drift.Repair.{no_drift_replaced, node_no_drift}
use open_slt.Relations.Drift.Tables.{
  Table, IsSound, HaveIds, drifts, repaired, drifts-repaired, repair_all-drifts,
}

owners : Relation → Table OwnerRow
unfolding sync_row sync_resources
owners relation = record {
  relation = relation;
  row_id = λ r. r.id;
  legacy = λ r. r.owner.legacy_ids;
  links = λ r. r.owner.links;
  sync = sync_row;
  same_row = λ ids r. refl;
  settles = λ i ids r k h. no_drift_replaced relation i ids r.owner.links k h;
}

test_runs : Table TestRun
unfolding sync_run_resources
test_runs = record {
  relation = run_resources;
  row_id = λ r. r.id;
  legacy = λ r. r.resource_ids;
  links = λ r. r.resource_links;
  sync = sync_run_resources;
  same_row = λ ids r. refl;
  settles = λ i ids r k h. no_drift_replaced run_resources i ids r.resource_links k h;
}

workflow_nodes : Table NodeRow
unfolding sync_node
workflow_nodes = record {
  relation = workflow_node_contract_files;
  row_id = λ r. r.id;
  legacy = λ r. or_empty r.node.contract_file_ids;
  links = λ r. r.node.contract_file_links;
  sync = sync_node;
  same_row = λ ids r. refl;
  settles = λ i ids r k h. node_no_drift i ids r.node k h;
}

owner_drifts_lem :
    (source : Source) (relation : Relation) (rs : List OwnerRow)
    → owner_drifts relation rs ≡ drifts (owners relation) source rs
unfolding owner_drifts drifts owners
owner_drifts_lem source relation [] = refl
owner_drifts_lem source relation (r ∷ rs) = rw (owner_drifts_lem source relation rs) refl

run_drifts_lem : (source : Source) (rs : List TestRun) → run_drifts rs ≡ drifts test_runs source rs
unfolding run_drifts drifts test_runs
run_drifts_lem source [] = refl
run_drifts_lem source (r ∷ rs) = rw (run_drifts_lem source rs) refl

node_drifts_lem :
    (source : Source) (rs : List NodeRow) → node_drifts rs ≡ drifts workflow_nodes source rs
unfolding node_drifts drifts workflow_nodes
node_drifts_lem source [] = refl
node_drifts_lem source (r ∷ rs) = rw (node_drifts_lem source rs) refl

-- Rows whose links have been loaded in their order and are distinct and positive, under numbers of
-- their own in each table.
abbrev pub AreSound : RelationTables → Type 0
AreSound t =
    All (λ (r : OwnerRow). IsSound r.owner.links) t.plans
    × HaveIds (λ (r : OwnerRow). r.id) t.plans
    × All (λ (r : OwnerRow). IsSound r.owner.links) t.scenarios
    × HaveIds (λ (r : OwnerRow). r.id) t.scenarios
    × All (λ (r : OwnerRow). IsSound r.owner.links) t.workflow_versions
    × HaveIds (λ (r : OwnerRow). r.id) t.workflow_versions
    × All (λ (r : TestRun). IsSound r.resource_links) t.runs
    × HaveIds (λ (r : TestRun). r.id) t.runs
    × All (λ (r : NodeRow). IsSound r.node.contract_file_links) t.nodes
    × HaveIds (λ (r : NodeRow). r.id) t.nodes

append_nil : {A : Type 0} (xs : List A) → xs ++ [] ≡ xs
append_nil [] = refl
append_nil (x ∷ xs) = ap (λ ys. x ∷ ys) (append_nil xs)

append_assoc : {A : Type 0} (xs ys zs : List A) → (xs ++ ys) ++ zs ≡ xs ++ (ys ++ zs)
append_assoc [] ys zs = refl
append_assoc (x ∷ xs) ys zs = ap (λ vs. x ∷ vs) (append_assoc xs ys zs)

right_nested :
    {A : Type 0} (a b c d e : List A)
    → (((a ++ b) ++ c) ++ d) ++ e ≡ a ++ (b ++ (c ++ (d ++ (e ++ []))))
right_nested a b c d e =
    append_assoc ((a ++ b) ++ c) d e
    ∙ (append_assoc (a ++ b) c (d ++ e)
        ∙ (append_assoc a b (c ++ (d ++ e))
            ∙ ap (λ xs. a ++ (b ++ (c ++ (d ++ xs)))) (sym (append_nil e))))

none_seen : {R : Type 0} (row_id : R → ℕ) (rs : List R) → All (λ r. false ≡ false) rs
none_seen row_id [] = tt
none_seen row_id (r ∷ rs) = (refl, none_seen row_id rs)

module _ (source : Source) where
  all_drifts : RelationTables → List RelationDrift → List RelationDrift
  all_drifts t ds =
      drifts (owners plan_resources) source t.plans
      ++ (drifts (owners scenario_resources) source t.scenarios
          ++ (drifts (owners workflow_version_resources) source t.workflow_versions
              ++ (drifts test_runs source t.runs ++ (drifts workflow_nodes source t.nodes ++ ds))))

  find_relation_drifts_lem : (t : RelationTables) → find_relation_drifts t ≡ all_drifts t []
  unfolding find_relation_drifts all_drifts
  find_relation_drifts_lem t =
      rw
        (
          owner_drifts_lem source plan_resources t.plans,
          owner_drifts_lem source scenario_resources t.scenarios,
          owner_drifts_lem source workflow_version_resources t.workflow_versions,
          run_drifts_lem source t.runs,
          node_drifts_lem source t.nodes,
        )
        (right_nested (drifts (owners plan_resources) source t.plans) _ _ _ _)

  repaired_tables : RelationTables → RelationTables
  repaired_tables t = record {
    plans = map (repaired (owners plan_resources) source) t.plans;
    scenarios = map (repaired (owners scenario_resources) source) t.scenarios;
    workflow_versions =
        map (repaired (owners workflow_version_resources) source) t.workflow_versions;
    runs = map (repaired test_runs source) t.runs;
    nodes = map (repaired workflow_nodes source) t.nodes;
  }

  repair_all-all_drifts :
      (t : RelationTables)
      → AreSound t
      → repair_all source (all_drifts t []) t ≡ repair_all source [] (repaired_tables t)
  unfolding all_drifts repaired_tables owners test_runs workflow_nodes repair sync_row sync_node
  repair_all-all_drifts t h =
      repair_all-drifts (owners plan_resources) source (λ xs. record t { plans = xs }) (λ i. false)
        (λ i ids xs e. refl) t.plans _ (none_seen (λ (r : OwnerRow). r.id) t.plans) h.1
      ∙ (repair_all-drifts (owners scenario_resources) source
            (λ xs. record t {
              plans = map (repaired (owners plan_resources) source) t.plans;
              scenarios = xs;
            })
            (λ i. false) (λ i ids xs e. refl) t.scenarios _
            (none_seen (λ (r : OwnerRow). r.id) t.scenarios) h.3
          ∙ (repair_all-drifts (owners workflow_version_resources) source
                (λ xs. record (repaired_tables t) {
                  workflow_versions = xs;
                  runs = t.runs;
                  nodes = t.nodes;
                })
                (λ i. false) (λ i ids xs e. refl) t.workflow_versions _
                (none_seen (λ (r : OwnerRow). r.id) t.workflow_versions) h.5
              ∙ (repair_all-drifts test_runs source
                    (λ xs. record (repaired_tables t) { runs = xs; nodes = t.nodes }) (λ i. false)
                    (λ i ids xs e. refl) t.runs _ (none_seen (λ (r : TestRun). r.id) t.runs) h.7
                  ∙ repair_all-drifts workflow_nodes source
                      (λ xs. record (repaired_tables t) { nodes = xs }) (λ i. false)
                      (λ i ids xs e. refl) t.nodes [] (none_seen (λ (r : NodeRow). r.id) t.nodes)
                      h.9)))

  all_drifts-repaired_tables :
      (t : RelationTables) → AreSound t → all_drifts (repaired_tables t) [] ≡ []
  unfolding all_drifts repaired_tables
  all_drifts-repaired_tables t h =
      rw
        (
          drifts-repaired (owners plan_resources) source t.plans (unfold owners in h.0),
          drifts-repaired (owners scenario_resources) source t.scenarios (unfold owners in h.2),
          drifts-repaired (owners workflow_version_resources) source t.workflow_versions
              (unfold owners in h.4),
          drifts-repaired test_runs source t.runs (unfold test_runs in h.6),
          drifts-repaired workflow_nodes source t.nodes (unfold workflow_nodes in h.8),
        )
        refl

  no_drift_left :
      (t : RelationTables)
      → AreSound t
      → find_relation_drifts (repair_all source (find_relation_drifts t) t) ≡ []
  unfolding repair_all
  no_drift_left t h =
      ap (λ ds. find_relation_drifts (repair_all source ds t)) (find_relation_drifts_lem t)
      ∙ (ap find_relation_drifts (repair_all-all_drifts t h)
          ∙ (find_relation_drifts_lem (repaired_tables t) ∙ all_drifts-repaired_tables t h))

-- Where the links of each row were loaded in their order and are distinct positive ids, and no two rows
-- of a table have one number, nothing is left to find after a repair of all five tables, whichever of
-- the two lists it takes the values from.
pub find_relation_drifts-repair_relation_drifts :
    (t : RelationTables)
    → AreSound t
    → (find_relation_drifts (repair_relation_drifts relations t).1 ≡ [])
      × (find_relation_drifts (repair_relation_drifts json t).1 ≡ [])
unfolding repair_relation_drifts
find_relation_drifts-repair_relation_drifts t h =
    (no_drift_left relations t h, no_drift_left json t h)
