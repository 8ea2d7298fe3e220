-- ===== src/Versions/Requests.antt =====
-- The requests that archive a version of a workflow and that enable a workflow
-- (backend/app/api/routes/workflows.py).
use open_slt.Prelude.{
  is_none, ℕ, Bool, true, false, not, ◌&&◌, ◌||◌, Option, none, some, List, if◌then◌else◌, ◌==◌,
  same, find,
}
use open_slt.Errors.{
  workflow_not_enabled, http_exception, not_found, workflow_enabled, workflow_archive_forbidden,
  workflow_draft_required, Result, ok, raised,
}
use open_slt.Relations.{resource_ids, sync_resources}
use open_slt.Versions.{
  WorkflowNode, disable, clone_published_to_draft, VersionStatus, VersionStatus-discrete, draft,
  published, retired, archived, Version, Scenario, Workspace, is_of, has_version_id, update_version,
  set_version_status, is_version_head, load_version, publish,
}

abbrev pub is_pointer : ℕ → Option ℕ → Bool
is_pointer i none = false
is_pointer i (some j) = j == i

module _ {C : Type 0} where
  abbrev pub has_version_status : VersionStatus → Version C → Bool
  has_version_status s v = same VersionStatus-discrete v.status s

  abbrev pub is_archivable : Version C → Bool
  is_archivable v =
      has_version_status draft v || has_version_status retired v || has_version_status archived v

  -- `published and published.version_no == version.version_no`.
  pub publishes_number : Version C → Option ℕ → List (Version C) → Bool
  publishes_number v none vs = false
  publishes_number v (some i) vs = elim (find (has_version_id i) vs) [
    | none ↦ false
    | some p ↦ p.version_no == v.version_no
  ]

  -- The draft that is archived is no longer the scenario's, nor is the published version of its number.
  pub without_draft : Version C → List (Version C) → Scenario → Scenario
  unfolding publishes_number
  without_draft v vs scenario =
      if is_pointer v.id scenario.draft_workflow_version_id
      then (record scenario {
        draft_workflow_version_id = none;
        published_workflow_version_id =
            if publishes_number v scenario.published_workflow_version_id vs
            then none
            else scenario.published_workflow_version_id;
        is_enabled = false;
      })
      else (record scenario { is_enabled = false })

  unfoldable pub archive_loaded : Version C → Workspace C → Result (Unit {0}) × Workspace C
  unfolding without_draft
  archive_loaded v w =
      if not (is_of w.scenario.id v) || not (is_version_head v w)
      then (raised (http_exception not_found 404), w)
      else if w.scenario.is_enabled && is_pointer v.id w.scenario.published_workflow_version_id
      then (raised (http_exception workflow_enabled 409), w)
      else if not (is_archivable v)
      then (raised (http_exception workflow_archive_forbidden 409), w)
      else if has_version_status archived v
      then (ok tt, w)
      else (
        ok tt,
        record w {
          versions = update_version v.id (set_version_status archived) w.versions;
          scenario = without_draft v w.versions w.scenario;
        },
      )

  unfoldable pub with_version :
      (Version C → Workspace C → Result (Unit {0}) × Workspace C)
      → Result (Version C)
      → Workspace C
      → Result (Unit {0}) × Workspace C
  with_version f (ok v) w = f v w
  with_version f (raised e) w = (raised e, w)

  -- `archive_workflow_version`.
  unfoldable pub archive_workflow_version : ℕ → Workspace C → Result (Unit {0}) × Workspace C
  unfolding archive_loaded with_version
  archive_workflow_version i w =
      if w.scenario.is_archived
      then (raised (http_exception not_found 404), w)
      else with_version archive_loaded (load_version i w) w

  -- A version that was published before is enabled again.
  unfoldable pub enable_again : Version C → Workspace C → Result (Unit {0}) × Workspace C
  enable_again v w = (
    ok tt,
    record w {
      versions = update_version v.id (set_version_status published) w.versions;
      scenario = record (w.scenario) {
        is_enabled = true;
        resources = sync_resources (resource_ids v.resources) w.scenario.resources;
      };
    },
  )

  unfoldable pub enable_published : Option ℕ → Workspace C → Result (Unit {0}) × Workspace C
  unfolding enable_again with_version
  enable_published none w = (raised (http_exception workflow_draft_required 409), w)
  enable_published (some i) w =
      if not w.scenario.is_enabled
      then with_version enable_again (load_version i w) w
      else with_version (λ _ w. (ok tt, w)) (load_version i w) w

  unfoldable pub enable_draft_or :
      (Version C → Option (WorkflowNode C → C))
      → Option ℕ
      → Workspace C
      → Result (Unit {0}) × Workspace C
  unfolding enable_published with_version
  enable_draft_or check none w = enable_published w.scenario.published_workflow_version_id w
  enable_draft_or check (some i) w = with_version (publish check) (load_version i w) w

  -- `_enable_workflow`.
  unfoldable pub enable_workflow :
      (Version C → Option (WorkflowNode C → C)) → Workspace C → Result (Unit {0}) × Workspace C
  unfolding enable_draft_or
  enable_workflow check w =
      if w.scenario.is_archived
      then (raised (http_exception not_found 404), w)
      else enable_draft_or check w.scenario.draft_workflow_version_id w

  unfoldable pub paused_scenario : Workspace C → Workspace C
  paused_scenario w = record w { scenario = disable w.scenario }

  -- `pause_scenario_workflow`.
  unfoldable pub pause_workflow : (ℕ → ℕ) → Workspace C → Result (Version C) × Workspace C
  unfolding paused_scenario
  pause_workflow uuid w =
      if w.scenario.is_archived
      then (raised (http_exception not_found 404), w)
      else if not w.scenario.is_enabled || is_none w.scenario.published_workflow_version_id
      then (raised (http_exception workflow_not_enabled 409), w)
      else let (r, after) = clone_published_to_draft uuid w in (r, paused_scenario after)
