-- ===== src/Routes.antt =====
-- The requests on a run: backend/app/api/routes/runs.py. A handler that raises does not commit, and
-- what it has written is rolled back with the request's session.
pub mod Pausing
pub mod Steps
pub mod Aligning
pub mod Sequences
use open_slt.Prelude.{
  ℕ, ◌+◌, Bool, true, false, not, ◌&&◌, ◌||◌, String, Option, none, some, List, [], ◌∷◌, ◌++◌,
  if◌then◌else◌, ◌==◌, same, mem, find,
}
use open_slt.Status.{
  RunStatus, RunStatus-discrete, StepStatus, draft, resource_queue, paused, awaiting_wiring,
  precheck_failed, execution_failed, parse_failed, terminal_run_statuses, pausable_run_statuses,
}
use open_slt.Errors.{
  Code, Error, http_exception, workflow_error, invalid_transition, parser_terminal_required, Result,
  ok, raised, Action, ◌>>=◌, ◌>>◌, pure, raise, get,
}
use open_slt.Domain.{
  NodeType, parser_parse, data_statistics, TaskType, Payload, IdempotencyKey, start_run_key,
  resume_run_key, retry_run_key, continue_wiring_key, workflow_step_retry_key,
  workflow_step_analysis_key, DurableTask, RunStep, TestRun,
}
use open_slt.RunState.{Origin}
use open_slt.Tasks.{Enqueue, enqueue_task}
use open_slt.Session.{
  Session, is_set, run_is, step_is, node_is, has_step_id, current_step, write_run, write_step,
  set_status, set_step_status,
}
use open_slt.Workflow.{scheduled_task, BeginMode, begin_workflow_step}
use open_slt.Workflow.Completion.{complete_workflow_step}
use open_slt.Workflow.Control.{is_over, cancel_run}

unfoldable pub committed : {A : Type 0} → Session → Result A × Session → Result A × Session
committed before (ok a, after) = (ok a, after)
committed before (raised e, after) = (raised e, before)

-- A request: its action, or its error and the state as it was.
unfoldable pub request : {A : Type 0} → Action Session A → Action Session A
unfolding committed
request m s = committed s (m s)

abbrev pub conflict : {A : Type 0} → Action Session A
conflict = raise (http_exception invalid_transition 409)

abbrev pub by_api : ℕ → String → Origin
by_api actor reason = record { source = "api"; actor_id = some actor; reason = some reason }

-- `task = enqueue_task(db, ...)`, `db.commit()` and `schedule_task(task.id)`.
pub enqueue : (TestRun → Enqueue) → Action Session Unit
unfolding scheduled_task
enqueue task s =
    let (r, table) = enqueue_task s.now (task s.run) s.tasks in
    scheduled_task (record s { tasks = table }) r

abbrev pub run_task : TaskType → (ℕ → ℕ → IdempotencyKey) → Bool → TestRun → Enqueue
run_task ty key reactivate run = record {
  task_type = ty;
  payload = record { run_id = some run.id; step_id = none };
  idempotency_key = key run.id run.status_version;
  max_attempts = 3;
  available_at = none;
  reactivate = reactivate;
}

-- `run_start`.
unfoldable pub run_start : ℕ → Action Session Unit
unfolding request enqueue
run_start actor = request λ s.
    if not (run_is draft s.run || run_is resource_queue s.run)
    then conflict s
    else (set_status (by_api actor "run started") resource_queue
          >> enqueue (run_task TaskType.start_run start_run_key true))
        s

-- `confirm_wiring`.
unfoldable pub confirm_wiring : Action Session Unit
unfolding request enqueue
confirm_wiring = request λ s.
    if not (run_is awaiting_wiring s.run)
    then conflict s
    else enqueue (run_task TaskType.continue_after_wiring continue_wiring_key false) s

abbrev pub is_pausable_run : TestRun → Bool
is_pausable_run run = mem RunStatus-discrete run.status pausable_run_statuses

pub pause_from : TestRun → TestRun
pause_from run = record run { paused_from = some run.status }

-- `run_pause`.
unfoldable pub run_pause : ℕ → Action Session Unit
unfolding request pause_from pausable_run_statuses
run_pause actor = request λ s.
    if not (is_pausable_run s.run)
    then conflict s
    else (write_run pause_from >> set_status (by_api actor "run paused") paused) s

pub unpaused : TestRun → TestRun
unpaused run = record run { paused_from = none }

-- `if previous == "resource_queue": task = enqueue_task(...)`.
pub enqueue_resumed : RunStatus → Action Session Unit
unfolding enqueue
enqueue_resumed previous s =
    if same RunStatus-discrete previous resource_queue
    then enqueue (run_task TaskType.start_run resume_run_key false) s
    else (ok tt, s)

pub resume_to : ℕ → Option RunStatus → Action Session Unit
unfolding unpaused enqueue_resumed
resume_to actor none s = conflict s
resume_to actor (some previous) s =
    (set_status (by_api actor "run resumed") previous
        >> (write_run unpaused >> enqueue_resumed previous))
      s

-- `run_resume`.
unfoldable pub run_resume : ℕ → Action Session Unit
unfolding request resume_to
run_resume actor =
    request
      λ s. if not (run_is paused s.run) then conflict s else resume_to actor s.run.paused_from s

-- `run_cancel`; the clean-up of the order sessions over SSH has no effect on the run.
unfoldable pub run_cancel : ℕ → Action Session Unit
unfolding request terminal_run_statuses
run_cancel actor =
    request λ s. if is_over s.run then conflict s else cancel_run "user_cancelled" (some actor) s

-- `_workflow_step_task_key`.
unfoldable pub step_task_key : TestRun → RunStep → IdempotencyKey
step_task_key run step =
    if node_is data_statistics step
    then elim step.result_summary.statistics_active_analysis_no [
      | none ↦ workflow_step_retry_key run.id step.id step.retry_count
      | some n ↦ workflow_step_analysis_key run.id step.id n
    ]
    else workflow_step_retry_key run.id step.id step.retry_count

abbrev pub step_task : RunStep → TestRun → Enqueue
step_task step run = record {
  task_type = TaskType.start_workflow_step;
  payload = record { run_id = some run.id; step_id = some step.id };
  idempotency_key = step_task_key run step;
  max_attempts = 3;
  available_at = none;
  reactivate = false;
}

abbrev pub is_parser : Option RunStep → Bool
is_parser none = false
is_parser (some step) = node_is parser_parse step

-- `start_run_step`.
unfoldable pub start_run_step : ℕ → Action Session Unit
unfolding request enqueue step_task_key
start_run_step step_id = request λ s.
    if is_parser (find (has_step_id step_id) s.run.steps)
    then raise (workflow_error parser_terminal_required 409) s
    else (begin_workflow_step step_id BeginMode.start >>= λ step. enqueue (step_task step)) s

pub reset_failed : Option RunStep → Action Session Unit
unfolding write_step
reset_failed none = pure tt
reset_failed (some step) = do
  again ← set_step_status step StepStatus.pending
  write_step (record again { error_message = none; retry_count = again.retry_count + 1 })

pub without_error : TestRun → TestRun
without_error run = record run { error_code = none; error_message = none; finished_at = none }

pub is_retryable : TestRun → Bool
is_retryable run =
    run_is precheck_failed run || run_is execution_failed run || run_is parse_failed run

pub retry_legacy : ℕ → Action Session Unit
unfolding reset_failed without_error enqueue is_retryable
retry_legacy actor s =
    if not (is_retryable s.run)
    then conflict s
    else (reset_failed (find (step_is StepStatus.failed) s.run.steps)
          >> (set_status (by_api actor "run retried") resource_queue
              >> (write_run without_error
                  >> enqueue (run_task TaskType.start_run retry_run_key false))))
        s

pub retry_failed : Option RunStep → Action Session Unit
unfolding enqueue step_task_key
retry_failed none = conflict
retry_failed (some failed) =
    if node_is parser_parse failed
    then raise (http_exception parser_terminal_required 409)
    else (begin_workflow_step failed.id BeginMode.retry >>= λ step. enqueue (step_task step))

-- `run_retry`.
unfoldable pub run_retry : ℕ → Action Session Unit
unfolding request retry_legacy retry_failed
run_retry actor = request λ s.
    if is_set s.run.workflow_version_id
    then retry_failed (find (step_is StepStatus.failed) s.run.steps) s
    else retry_legacy actor s
