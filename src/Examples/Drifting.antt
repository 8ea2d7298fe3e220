-- ===== src/Examples/Drifting.antt =====
-- The theorem about the repair of all tables at tables that hold drifts.
use open_slt.Prelude.{◌≡◌, refl, arith, ℕ_discrete, [], ◌∷◌}
use open_slt.Relations.Drift.{
  RelationTables, relations, json, new_ids, find_relation_drifts, repair_relation_drifts,
}
use open_slt.Relations.{ordered_ids}
use open_slt.Relations.Drift.Repairing.{find_relation_drifts-repair_relation_drifts}
use open_slt.Examples.Data.{linked_run, linked_node, linked_owner, drifted_owner}

abbrev tables : RelationTables
tables = record {
  plans = record { id = 1; owner = drifted_owner } ∷ record { id = 2; owner = linked_owner } ∷ [];
  scenarios = record { id = 1; owner = drifted_owner } ∷ [];
  workflow_versions = [];
  runs = linked_run ∷ [];
  nodes = record { id = 5; node = linked_node } ∷ [];
}

find_relation_drifts-repair_relation_drifts_example :
    (find_relation_drifts (repair_relation_drifts relations tables).1 ≡ [])
    × (find_relation_drifts (repair_relation_drifts json tables).1 ≡ [])
unfolding new_ids ordered_ids ℕ_discrete
find_relation_drifts-repair_relation_drifts_example =
    find_relation_drifts-repair_relation_drifts tables (
      (((omega arith, (omega arith, tt)), refl), (((omega arith, (omega arith, tt)), refl), tt)),
      (refl, (refl, tt)),
      (((omega arith, (omega arith, tt)), refl), tt),
      (refl, tt),
      tt,
      tt,
      (((omega arith, (omega arith, tt)), refl), tt),
      (refl, tt),
      (((omega arith, (omega arith, tt)), refl), tt),
      (refl, tt),
    )
