-- ===== src/Versions/Steps.antt =====
-- The versions of the workflows through any sequence of the operations of
-- backend/app/services/workflow_core.py, backend/app/services/workflow_publishing.py and
-- backend/app/api/routes/workflows.py on them.
use open_slt.Prelude.{
  same, ◌==◌, ℕ, not, ◌&&◌, ◌||◌, refl, Option, none, some, List, if-both, is_none,
}
use open_slt.Errors.{Result, ok, raised}
use open_slt.Versions.{
  WorkflowNode, VersionStatus-discrete, draft, is_of, is_version_head, Version, Scenario, Workspace,
  published, archived, create_draft, clone_published_to_draft, create_next_version, load_version,
  publish, set_version_status,
}
use open_slt.Versions.Numbers.{
  HasNumbers, update_version-AreNumbered, create_draft-HasNumbers, clone-HasNumbers,
  next-HasNumbers, publish-HasNumbers,
}
use open_slt.Versions.Drafts.{NodeWrite, replaced, replace_draft}
use open_slt.Versions.Requests.{
  is_pointer, is_archivable, has_version_status, archive_loaded, with_version,
  archive_workflow_version, enable_again, enable_published, enable_draft_or, enable_workflow,
  paused_scenario, pause_workflow,
}

module _ {C : Type 0} where
  -- One operation, on any scenario.
  pub data VersionStep : Workspace C → Workspace C → Type 0 where
    other_scenario : (s : Scenario) (w : Workspace C) → VersionStep w (record w { scenario = s })
    draft_created : (ids : List ℕ) (w : Workspace C) → VersionStep w (create_draft ids w).1
    draft_ensured :
        (uuid : ℕ → ℕ) (w : Workspace C) → VersionStep w (clone_published_to_draft uuid w).1
    version_created :
        (uuid : ℕ → ℕ) (source : Version C) (w : Workspace C)
        → VersionStep w (create_next_version uuid source w).1
    draft_saved :
        (expected : ℕ) (ids : List ℕ) (items : List (NodeWrite C)) (v : Version C) (w : Workspace C)
        → VersionStep w (replace_draft expected ids items v w).1
    workflow_enabled :
        (check : Version C → Option (WorkflowNode C → C)) (w : Workspace C)
        → VersionStep w (enable_workflow check w).1
    workflow_paused : (uuid : ℕ → ℕ) (w : Workspace C) → VersionStep w (pause_workflow uuid w).1
    version_archived : (i : ℕ) (w : Workspace C) → VersionStep w (archive_workflow_version i w).1

  pub data VersionSteps : Workspace C → Workspace C → Type 0 where
    no_step : (w : Workspace C) → VersionSteps w w
    then_step : {a b c : Workspace C} → VersionSteps a b → VersionStep b c → VersionSteps a c

  abbrev Numbered : {A : Type 0} → Result A × Workspace C → Type 0
  Numbered r = HasNumbers r.1

  replace_draft-HasNumbers :
      (expected : ℕ) (ids : List ℕ) (items : List (NodeWrite C)) (v : Version C) (w : Workspace C)
      → HasNumbers w
      → Numbered (replace_draft expected ids items v w)
  unfolding replace_draft replaced
  replace_draft-HasNumbers expected ids items v w h =
      if-both Numbered (not (same VersionStatus-discrete v.status draft)) h (
        if-both Numbered (not (v.revision == expected)) h (
          update_version-AreNumbered v.id (replaced w.next_node_id ids items) w.versions
            (λ v. (refl, refl, refl)) h))

  loaded-HasNumbers :
      (f : Version C → Workspace C → Result (Unit {0}) × Workspace C) (r : Result (Version C))
      (w : Workspace C)
      → HasNumbers w
      → ((v : Version C) → Numbered (f v w))
      → Numbered (with_version f r w)
  unfolding with_version
  loaded-HasNumbers f (ok v) w h k = k v
  loaded-HasNumbers f (raised e) w h k = h

  archive_loaded-HasNumbers :
      (v : Version C) (w : Workspace C) → HasNumbers w → Numbered (archive_loaded v w)
  unfolding archive_loaded
  archive_loaded-HasNumbers v w h =
      if-both Numbered (not (is_of w.scenario.id v) || not (is_version_head v w)) h (
        if-both Numbered
          (w.scenario.is_enabled && is_pointer v.id w.scenario.published_workflow_version_id) h
          (if-both Numbered (not (is_archivable v)) h (
            if-both Numbered (has_version_status archived v) h (
              update_version-AreNumbered v.id (set_version_status archived) w.versions
                (λ v. (refl, refl, refl)) h))))

  enable_published-HasNumbers :
      (o : Option ℕ) (w : Workspace C) → HasNumbers w → Numbered (enable_published o w)
  unfolding enable_published enable_again
  enable_published-HasNumbers none w h = h
  enable_published-HasNumbers (some i) w h =
      if-both Numbered (not w.scenario.is_enabled)
        (loaded-HasNumbers enable_again (load_version i w) w h (λ v.
          update_version-AreNumbered v.id (set_version_status published) w.versions
            (λ v. (refl, refl, refl)) h))
        (loaded-HasNumbers (λ _ w. (ok tt, w)) (load_version i w) w h (λ _. h))

  enable_draft_or-HasNumbers :
      (check : Version C → Option (WorkflowNode C → C)) (o : Option ℕ) (w : Workspace C)
      → HasNumbers w
      → Numbered (enable_draft_or check o w)
  unfolding enable_draft_or
  enable_draft_or-HasNumbers check none w h =
      enable_published-HasNumbers w.scenario.published_workflow_version_id w h
  enable_draft_or-HasNumbers check (some i) w h =
      loaded-HasNumbers (publish check) (load_version i w) w h (λ v. publish-HasNumbers check v w h)

  enable_workflow-HasNumbers :
      (check : Version C → Option (WorkflowNode C → C)) (w : Workspace C)
      → HasNumbers w
      → Numbered (enable_workflow check w)
  unfolding enable_workflow
  enable_workflow-HasNumbers check w h =
      if-both Numbered w.scenario.is_archived h
        (enable_draft_or-HasNumbers check w.scenario.draft_workflow_version_id w h)

  archive-HasNumbers :
      (i : ℕ) (w : Workspace C) → HasNumbers w → Numbered (archive_workflow_version i w)
  unfolding archive_workflow_version
  archive-HasNumbers i w h = if-both Numbered w.scenario.is_archived h (
      loaded-HasNumbers archive_loaded (load_version i w) w h
        (λ v. archive_loaded-HasNumbers v w h))

  pause_workflow-HasNumbers :
      (uuid : ℕ → ℕ) (w : Workspace C) → HasNumbers w → Numbered (pause_workflow uuid w)
  unfolding pause_workflow paused_scenario
  pause_workflow-HasNumbers uuid w h = if-both Numbered w.scenario.is_archived h (
      if-both Numbered
        (not w.scenario.is_enabled || is_none w.scenario.published_workflow_version_id) h
        (clone-HasNumbers uuid w h))

  VersionStep-HasNumbers : (a b : Workspace C) → VersionStep a b → HasNumbers a → HasNumbers b
  VersionStep-HasNumbers a b (other_scenario s w) h = h
  VersionStep-HasNumbers a b (draft_created ids w) h = create_draft-HasNumbers ids w h
  VersionStep-HasNumbers a b (draft_ensured uuid w) h = clone-HasNumbers uuid w h
  VersionStep-HasNumbers a b (version_created uuid source w) h = next-HasNumbers uuid source w h
  VersionStep-HasNumbers a b (draft_saved expected ids items v w) h =
      replace_draft-HasNumbers expected ids items v w h
  VersionStep-HasNumbers a b (workflow_enabled check w) h = enable_workflow-HasNumbers check w h
  VersionStep-HasNumbers a b (workflow_paused uuid w) h = pause_workflow-HasNumbers uuid w h
  VersionStep-HasNumbers a b (version_archived i w) h = archive-HasNumbers i w h

  -- No two versions of a workflow get the same scenario, number and generation, through any sequence of
  -- new drafts, clones, next versions, saves, enabling, pausing and archiving on any scenarios, whether
  -- they succeed or fail.
  pub VersionSteps-HasNumbers : (a b : Workspace C) → VersionSteps a b → HasNumbers a → HasNumbers b
  VersionSteps-HasNumbers a b (no_step w) h = h
  VersionSteps-HasNumbers a b (then_step ss s) h =
      VersionStep-HasNumbers _ _ s (VersionSteps-HasNumbers _ _ ss h)
