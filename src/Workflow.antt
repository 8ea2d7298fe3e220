-- ===== src/Workflow.antt =====
-- The workflow engine of backend/app/services/orchestration.py: `advance_workflow`,
-- `begin_workflow_step` and `complete_workflow_step`.
pub mod Completion
pub mod Execution
pub mod Control
pub mod Legacy
pub mod Beginning
pub mod Alignment
use open_slt.Prelude.{
  ℕ, ◌+◌, ◌*◌, ◌/◌, max, Bool, true, false, not, ◌&&◌, ◌||◌, Option, none, some, List, [], ◌∷◌,
  ◌++◌, if◌then◌else◌, ◌==◌, is_none, same, any, find, length,
}
use open_slt.Status.{
  RunStatus, RunStatus-discrete, StepStatus, awaiting_review, awaiting_step_start,
  awaiting_step_completion, awaiting_step_retry, completed,
}
use open_slt.Errors.{
  Code, Error, workflow_error, invalid_transition, invalid_workflow_step, order_action_unresolved,
  statistics_analysis_stale, wiring_interface_incomplete, Result, ok, raised, Action, ◌>>=◌, ◌>>◌,
  pure, raise, raise_if, when, get,
}
use open_slt.Domain.{
  NodeType, server_config, database_config, wiring_confirmation, order_preparation, data_statistics,
  report_generation, slnic_merge_capture, OrderActionStatus, OrderActionStatus-discrete, Summary,
  RunStep, TestRun, start_workflow_step, workflow_step_retry_key, DurableTask,
}
use open_slt.RunState.{by_service}
use open_slt.Tasks.{Enqueue, enqueue_task}
use open_slt.Analysis.{reserve_statistics_analysis, is_fresh}
use open_slt.Session.{
  Session, LogEvent, run_completed, review_waiting, wiring_waiting, step_started, step_retried,
  reanalysis_started, step_completed, is_set, run_is, step_is, node_is, has_step_id, is_unfinished,
  current_step, write_run, write_step, set_status, set_step_status, append_log, publish_status,
  release_run_locks,
}

-- The two flags of `begin_workflow_step`: a plain start, a retry, or a new analysis.
pub data BeginMode : Type 0 where
  start retry reanalysis : BeginMode

abbrev pub expected_status : BeginMode → RunStatus
expected_status start = awaiting_step_start
expected_status retry = awaiting_step_retry
expected_status reanalysis = awaiting_step_completion

abbrev pub expected_step_status : BeginMode → StepStatus
expected_step_status start = StepStatus.pending
expected_step_status retry = StepStatus.failed
expected_step_status reanalysis = StepStatus.waiting

pub begin_event : BeginMode → LogEvent
begin_event start = step_started
begin_event retry = step_retried
begin_event reanalysis = reanalysis_started

-- `current.retry_count += 1` on a retry.
pub count_retry : BeginMode → RunStep → RunStep
count_retry retry step = record step { retry_count = step.retry_count + 1 }
count_retry _ step = step

-- `reserve_statistics_analysis` on a statistics step.
pub reserve : ℕ → RunStep → RunStep
reserve now step =
    if node_is data_statistics step then (reserve_statistics_analysis now step).1 else step

pub restarted : ℕ → RunStep → RunStep
restarted now step = record step {
  progress = 0;
  error_message = none;
  finished_at = none;
  started_at = some now;
}

pub clear_error : TestRun → TestRun
clear_error run = record run { error_code = none; error_message = none }

-- The part of `begin_workflow_step` below its guards.
pub start_current : BeginMode → RunStep → Action Session RunStep
unfolding begin_event count_retry reserve restarted clear_error write_step
start_current mode current = do
  s ← get
  step ← set_step_status (count_retry mode (reserve s.now current)) StepStatus.running
  let begun = restarted s.now step
  write_step begun
  set_status by_service RunStatus.running
  write_run clear_error
  append_log (begin_event mode) (some begun.id)
  publish_status
  pure begun

abbrev pub refuse : Code → {A : Type 0} → Action Session A
refuse c = raise (workflow_error c 409)

-- `if not current or current.id != step_id`, and the check of its status.
pub begin_checked : BeginMode → ℕ → Option RunStep → Action Session RunStep
unfolding start_current
begin_checked mode step_id none = refuse invalid_workflow_step
begin_checked mode step_id (some current) =
    if not (has_step_id step_id current)
    then refuse invalid_workflow_step
    else if not (step_is (expected_step_status mode) current)
    then refuse invalid_transition
    else start_current mode current

unfoldable pub begin_workflow_step : ℕ → BeginMode → Action Session RunStep
unfolding begin_checked
begin_workflow_step step_id mode s =
    if not (is_set s.run.workflow_version_id) || not (run_is (expected_status mode) s.run)
    then refuse invalid_transition s
    else begin_checked mode step_id (current_step s.run) s

-- `node_type in AUTOMATIC_CAPTURE_NODES`.
abbrev pub is_automatic : RunStep → Bool
is_automatic step = node_is server_config step || node_is database_config step

pub finish_run : TestRun → TestRun
finish_run run = record run { progress = 100 }

unfoldable pub stamp_finished : ℕ → TestRun → TestRun
stamp_finished now run = record run { finished_at = some now }

pub complete_run : Action Session Unit
unfolding finish_run stamp_finished
complete_run = do
  set_status by_service completed
  write_run finish_run
  s ← get
  write_run (stamp_finished s.now)
  release_run_locks "completed"
  append_log run_completed none

-- `if step is not None and step.status == "pending": transition_step(step, "waiting")`.
pub wait_for_report : Option RunStep → Action Session Unit
wait_for_report none = pure tt
wait_for_report (some step) =
    if step_is StepStatus.pending step
    then (set_step_status step StepStatus.waiting >>= λ _. pure tt)
    else pure tt

pub await_review : Option RunStep → Action Session Unit
unfolding wait_for_report
await_review step = do
  wait_for_report step
  set_status by_service awaiting_review
  release_run_locks "awaiting_review"
  append_log review_waiting none

no_summary : Summary
no_summary = record {
  confirmed = none;
  confirmed_by = none;
  artifact_id = none;
  process_started = false;
  order_action_status = none;
  statistics_analyses = none;
  statistics_active_analysis_no = none;
  statistics_next_analysis_no = none;
  statistics_config_revision = none;
  statistics_latest_success_analysis_no = none;
  statistics_latest_success_revision = none;
  statistics_selection = [];
}

pub unconfirmed : ℕ → RunStep → RunStep
unfolding no_summary
unconfirmed now step = record step {
  started_at = some now;
  result_summary = record no_summary { confirmed = some false };
}

pub await_wiring : RunStep → Action Session Unit
unfolding unconfirmed write_step
await_wiring step = do
  waiting ← set_step_status step StepStatus.waiting
  s ← get
  write_step (unconfirmed s.now waiting)
  set_status by_service awaiting_step_completion
  append_log wiring_waiting (some step.id)

abbrev capture_task : TestRun → RunStep → Enqueue
capture_task run step = record {
  task_type = start_workflow_step;
  payload = record { run_id = some run.id; step_id = some step.id };
  idempotency_key = workflow_step_retry_key run.id step.id step.retry_count;
  max_attempts = 3;
  available_at = none;
  reactivate = false;
}

unfoldable pub scheduled_task : Session → Result DurableTask → Result (Unit {0}) × Session
scheduled_task s (ok t) = (ok tt, record s { scheduled = s.scheduled ++ t.id ∷ [] })
scheduled_task s (raised e) = (raised e, s)

-- `task = enqueue_task(...)` and `schedule_task(task.id)`.
pub enqueue_step : RunStep → Action Session Unit
unfolding scheduled_task
enqueue_step step s =
    let (r, table) = enqueue_task s.now (capture_task s.run step) s.tasks in
    scheduled_task (record s { tasks = table }) r

pub start_capture : RunStep → Action Session Unit
unfolding begin_workflow_step enqueue_step
start_capture step = do _ ← begin_workflow_step step.id start; enqueue_step step

-- `if run.status != "awaiting_step_start": transition_run(run, "awaiting_step_start")`, and what the
-- next step needs.
pub start_next : RunStep → Action Session Unit
unfolding await_wiring start_capture
start_next step = do
  s ← get
  when (not (run_is awaiting_step_start s.run)) (set_status by_service awaiting_step_start)
  if node_is wiring_confirmation step
      then await_wiring step
      else if is_automatic step
      then start_capture step
      else pure tt

pub advance_to : Option RunStep → Action Session Unit
unfolding complete_run await_review start_next
advance_to none s =
    if not (any (node_is data_statistics) s.run.steps) then complete_run s else await_review none s
advance_to (some step) s =
    if node_is report_generation step then await_review (some step) s else start_next step s

unfoldable pub advance_workflow : Action Session Unit
unfolding advance_to
advance_workflow s = advance_to (current_step s.run) s
