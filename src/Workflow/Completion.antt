-- ===== src/Workflow/Completion.antt =====
-- `complete_workflow_step` of backend/app/services/orchestration.py.
use open_slt.Prelude.{
  ℕ, ◌*◌, ◌/◌, max, Bool, true, false, not, ◌&&◌, ◌||◌, Option, none, some, if◌then◌else◌, ◌==◌,
  same, find, length,
}
use open_slt.Status.{StepStatus, awaiting_step_completion}
use open_slt.Errors.{
  invalid_transition, invalid_workflow_step, order_action_unresolved, statistics_analysis_stale,
  wiring_interface_incomplete, Result, ok, raised, Action, ◌>>=◌, ◌>>◌, pure, get,
}
use open_slt.Domain.{
  wiring_confirmation, order_preparation, data_statistics, slnic_merge_capture, OrderActionStatus,
  OrderActionStatus-discrete, RunStep, TestRun,
}
use open_slt.Analysis.{is_fresh}
use open_slt.Session.{
  Session, step_completed, is_set, run_is, step_is, node_is, has_step_id, current_step, write_run,
  write_step, set_step_status, append_log, publish_status,
}
use open_slt.Workflow.{advance_workflow, refuse}

-- `order_action_status in {"dispatching", "unknown"}`.
abbrev pub is_unresolved : Option OrderActionStatus → Bool
is_unresolved none = false
is_unresolved (some s) =
    same OrderActionStatus-discrete s OrderActionStatus.dispatching
    || same OrderActionStatus-discrete s OrderActionStatus.unknown

-- The three conditions on the node's type under which a step may not be completed.
abbrev pub order_unresolved : RunStep → Bool
order_unresolved step =
    node_is order_preparation step && is_unresolved step.result_summary.order_action_status

abbrev pub statistics_stale : RunStep → Bool
statistics_stale step = node_is data_statistics step && not (is_fresh step.result_summary)

abbrev pub wiring_incomplete : RunStep → Bool
wiring_incomplete step =
    node_is wiring_confirmation step
    && step.config_snapshot.diagram_from_resource
    && not step.config_snapshot.interfaces_complete

unfoldable pub with_artifact : RunStep → Result ℕ → Session → Result RunStep × Session
with_artifact step (ok artifact) s = (
  ok (record step {
    result_summary = record (step.result_summary) { artifact_id = some artifact };
  }),
  s,
)
with_artifact step (raised e) s = (raised e, s)

-- A merged capture without an artifact is fetched first. Fetching it over SSH is a parameter,
-- `collect`: it gives the id of the artifact that it has registered, or raises.
unfoldable pub collect_missing : (RunStep → Result ℕ) → RunStep → Action Session RunStep
unfolding with_artifact
collect_missing collect step =
    if node_is slnic_merge_capture step && not (is_set step.result_summary.artifact_id)
    then with_artifact step (collect step)
    else pure step

unfoldable pub confirmed_by_actor : ℕ → RunStep → RunStep
confirmed_by_actor actor step =
    if node_is wiring_confirmation step
    then (record step {
      result_summary = record (step.result_summary) {
        confirmed = some true;
        confirmed_by = some actor;
      };
    })
    else step

unfoldable pub finished : ℕ → ℕ → RunStep → RunStep
unfolding confirmed_by_actor
finished now actor step =
    confirmed_by_actor actor (record step { progress = 100; finished_at = some now })

unfoldable pub step_progress : ℕ → TestRun → TestRun
step_progress position run = record run { progress = position * 100 / max 1 (length run.steps) }

-- The part of `complete_workflow_step` below its guards.
unfoldable pub complete_current : (RunStep → Result ℕ) → ℕ → RunStep → Action Session Unit
unfolding collect_missing finished step_progress write_step
complete_current collect actor waiting = do
  s ← get
  collected ← collect_missing collect waiting
  write_step collected
  step ← set_step_status collected StepStatus.succeeded
  write_step (finished s.now actor step)
  write_run (step_progress step.position)
  append_log step_completed (some step.id)
  advance_workflow
  publish_status

abbrev pub is_current : RunStep → Option RunStep → Bool
is_current step none = false
is_current step (some current) = current.id == step.id

unfoldable pub complete_checked : (RunStep → Result ℕ) → ℕ → Option RunStep → Action Session Unit
unfolding complete_current
complete_checked collect actor none s = refuse invalid_workflow_step s
complete_checked collect actor (some step) s =
    if not (is_current step (current_step s.run)) || not (step_is StepStatus.waiting step)
    then refuse invalid_workflow_step s
    else if order_unresolved step
    then refuse order_action_unresolved s
    else if statistics_stale step
    then refuse statistics_analysis_stale s
    else if wiring_incomplete step
    then refuse wiring_interface_incomplete s
    else complete_current collect actor step s

unfoldable pub complete_workflow_step : (RunStep → Result ℕ) → ℕ → ℕ → Action Session Unit
unfolding complete_checked
complete_workflow_step collect step_id actor s =
    if not (is_set s.run.workflow_version_id) || not (run_is awaiting_step_completion s.run)
    then refuse invalid_transition s
    else complete_checked collect actor (find (has_step_id step_id) s.run.steps) s
