-- ===== src/Relations.antt =====
-- Ordered relations stored twice: as rows of a link table and as a JSON list of the older schema
-- (backend/app/services/resource_relations.py). Plans, scenarios, workflow versions and runs have the
-- same shape, `Owner`; a workflow node has it for its contract files.
pub mod Sync
pub mod Drift
use open_slt.Prelude.{
  ℕ, zero, suc, ◌+◌, Bool, true, false, not, ◌&&◌, ◌||◌, Option, none, some, List, [], ◌∷◌, ◌++◌,
  map, if◌then◌else◌, ltb, leb, ◌==◌, mem, same, ℕ_discrete,
}
use open_slt.Domain.{Link, NodeType, NodeType-discrete, order_preparation, TestRun}

-- `sorted(links, key=lambda item: item.position)`, which is stable.
pub insert_link : Link → List Link → List Link
insert_link l [] = l ∷ []
insert_link l (m ∷ ms) =
    let later = insert_link l ms in if leb l.position m.position then l ∷ m ∷ ms else m ∷ later

pub sort_links : List Link → List Link
unfolding insert_link
sort_links [] = []
sort_links (l ∷ ls) = insert_link l (sort_links ls)

abbrev pub values : List Link → List ℕ
values [] = []
values (l ∷ ls) = l.value ∷ values ls

-- `_ordered_ids`.
unfoldable pub ordered_ids : List Link → List ℕ
unfolding sort_links
ordered_ids links = values (sort_links links)

-- `normalized if normalized else legacy`.
abbrev pub or_legacy : List ℕ → List ℕ → List ℕ
or_legacy [] legacy = legacy
or_legacy (v ∷ vs) legacy = v ∷ vs

pub record Owner : Type 0 where
  pub links : List Link
  pub legacy_ids : List ℕ

-- `plan_resource_ids`, `scenario_resource_ids` and `workflow_resource_ids`.
unfoldable pub resource_ids : Owner → List ℕ
resource_ids o = or_legacy (ordered_ids o.links) o.legacy_ids

unfoldable pub run_resource_ids : TestRun → List ℕ
run_resource_ids run = or_legacy (ordered_ids run.resource_links) run.resource_ids

pub same_ids : List ℕ → List ℕ → Bool
same_ids [] [] = true
same_ids (x ∷ xs) (y ∷ ys) = x == y && same_ids xs ys
same_ids _ _ = false

-- `for position, link in enumerate(current, first): link.position = position`.
renumber : ℕ → List Link → List Link
renumber n [] = []
renumber n (l ∷ ls) = record l { position = n } ∷ renumber (n + 1) ls

-- `[link_type(value, position) for position, value in enumerate(values, first)]`.
new_links : ℕ → List ℕ → List Link
new_links n [] = []
new_links n (v ∷ vs) = record { value = v; position = n } ∷ new_links (n + 1) vs

-- `_replace_links`: the rows that the session then has. `are_unique` says whether the database takes them.
unfoldable pub replace_links : List Link → List ℕ → List Link
unfolding same_ids renumber new_links
replace_links current ids =
    if same_ids (ordered_ids current) ids then renumber 1 current else new_links 1 ids

abbrev pub positions : List Link → List ℕ
positions [] = []
positions (l ∷ ls) = l.position ∷ positions ls

pub is_distinct : List ℕ → Bool
is_distinct [] = true
is_distinct (x ∷ xs) = not (mem ℕ_discrete x xs) && is_distinct xs

-- The two `UniqueConstraint`s of a link table, for the rows of one owner.
unfoldable pub are_unique : List Link → Bool
unfolding is_distinct
are_unique links = is_distinct (values links) && is_distinct (positions links)

-- `sync_plan_resources`, `sync_scenario_resources`, `sync_workflow_resources`.
unfoldable pub sync_resources : List ℕ → Owner → Owner
unfolding replace_links
sync_resources ids o = record { links = replace_links o.links ids; legacy_ids = ids }

unfoldable pub sync_run_resources : List ℕ → TestRun → TestRun
unfolding replace_links
sync_run_resources ids run = record run {
  resource_ids = ids;
  resource_links = replace_links run.resource_links ids;
}

-- A workflow node: its type, its contract file links and the `contract_file_ids` of its JSON
-- configuration, which may be absent.
pub record NodeOwner : Type 0 where
  pub node_type : NodeType
  pub contract_file_links : List Link
  pub contract_file_ids : Option (List ℕ)

abbrev pub or_empty : Option (List ℕ) → List ℕ
or_empty none = []
or_empty (some ids) = ids

unfoldable pub node_contract_file_ids : NodeOwner → List ℕ
node_contract_file_ids n =
    or_legacy (ordered_ids n.contract_file_links) (or_empty n.contract_file_ids)

unfoldable pub sync_node_contract_files : List ℕ → NodeOwner → NodeOwner
unfolding replace_links
sync_node_contract_files ids n =
    if same NodeType-discrete n.node_type order_preparation
    then (record n {
      contract_file_links = replace_links n.contract_file_links ids;
      contract_file_ids = some ids;
    })
    else (record n {
      contract_file_links = replace_links n.contract_file_links [];
      contract_file_ids = none;
    })
