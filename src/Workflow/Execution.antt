-- ===== src/Workflow/Execution.antt =====
-- `start_workflow_run` of backend/app/services/orchestration.py: the start of a run whose resources
-- are free, the execution of one step, and what an exception leads to.
pub mod Failure
use open_slt.Prelude.{
  ℕ, ◌-◌, ◌*◌, ◌/◌, max, Bool, true, false, not, ◌||◌, Option, none, some, List, [], ◌∷◌,
  if◌then◌else◌, find, length,
}
use open_slt.Status.{
  RunStatus, StepStatus, draft, resource_queue, awaiting_step_start, awaiting_step_completion,
  awaiting_step_retry, execution_failed,
}
use open_slt.Errors.{
  Error, error_code, is_cancellation, workflow_not_found, workflow_node_not_found,
  workflow_step_not_found, workflow_error, Result, ok, raised, Action, ◌>>=◌, ◌>>◌, pure, raise,
  get,
}
use open_slt.Domain.{data_statistics, Summary, text_of, RunStep, TestRun, ResourceLock}
use open_slt.RunState.{by_service}
use open_slt.Locks.{acquire_locks}
use open_slt.Relations.{run_resource_ids}
use open_slt.Analysis.{finish_failed_analysis}
use open_slt.Session.{
  Session, run_started, run_queued, run_failed, step_executed, step_failed, is_set, run_is, step_is,
  node_is, has_step_id, write_run, write_step, set_status, set_step_status, append_log,
  publish_status, release_run_locks,
}
use open_slt.Workflow.{advance_workflow, is_automatic, complete_run}
use open_slt.Workflow.Completion.{complete_workflow_step}

-- `run.started_at or beijing_now()`.
abbrev pub or_instant : ℕ → Option ℕ → Option ℕ
or_instant now none = some now
or_instant now (some t) = some t

unfoldable pub begun : ℕ → TestRun → TestRun
begun now run = record run { started_at = or_instant now run.started_at; queue_reason = [] }

-- `if not run.steps`: there is nothing to do, and otherwise the first step is next.
unfoldable pub begin_with : List RunStep → Action Session Unit
unfolding begun
begin_with [] s = (write_run (begun s.now) >> (complete_run >> publish_status)) s
begin_with (_ ∷ _) s =
    (write_run (begun s.now)
        >> (set_status by_service awaiting_step_start
            >> (append_log run_started none >> (advance_workflow >> publish_status))))
      s

unfoldable pub begin_run : Action Session Unit
unfolding begin_with
begin_run s = begin_with s.run.steps s

unfoldable pub queued_behind : List ℕ → TestRun → TestRun
queued_behind conflicts run = record run { queue_reason = conflicts }

unfoldable pub queue_run : List ℕ → Action Session Unit
unfolding queued_behind
queue_run conflicts = do
  set_status by_service resource_queue
  write_run (queued_behind conflicts)
  append_log run_queued none

-- Either the run has its resources and begins, or it waits for those in conflict.
unfoldable pub start_or_queue : (Bool × List ℕ) × List ResourceLock → Action Session Unit
unfolding begin_run queue_run
start_or_queue ((true, _), locks) s = begin_run (record s { locks = locks })
start_or_queue ((false, conflicts), locks) s = queue_run conflicts (record s { locks = locks })

abbrev pub is_startable : TestRun → Bool
is_startable run = run_is draft run || run_is resource_queue run

-- The branch `step_id is None`. The default lease is 180 minutes.
unfoldable pub start_run_body : Action Session Unit
unfolding start_or_queue
start_run_body s =
    if not (is_startable s.run)
    then (ok tt, s)
    else start_or_queue (acquire_locks s.now s.run.id (run_resource_ids s.run) 180 s.locks) s

-- What the step's execution asks of the world: whether the workflow, the scenario and the node are
-- still there, what the node's handler returns or raises, and the two parameters of the functions
-- that it calls.
pub record Externals : Type 0 where
  pub workflow_found : Bool
  pub node_found : RunStep → Bool
  pub execute : RunStep → Result Summary
  pub collect : RunStep → Result ℕ
  pub archive : ℕ → Result ℕ

unfoldable pub executed : RunStep → RunStep
executed step = record step { progress = 100 }

unfoldable pub progress_before : ℕ → TestRun → TestRun
progress_before position run = record run {
  progress = (position - 1) * 100 / max 1 (length run.steps);
}

-- `if step.node_type in AUTOMATIC_CAPTURE_NODES: await complete_workflow_step(...)`.
unfoldable pub complete_automatic : Externals → RunStep → Action Session Unit
complete_automatic ext step s =
    if is_automatic step
    then complete_workflow_step ext.collect step.id s.run.created_by s
    else (ok tt, s)

-- Once the node's handler has returned or raised. The session works on the run as it was loaded before
-- the handler: what other requests commit to it meanwhile is not modelled.
unfoldable pub after_handler : Externals → RunStep → Result Summary → Action Session Unit
unfolding executed progress_before complete_automatic write_step
after_handler ext step (raised e) = raise e
after_handler ext step (ok summary) = do
  write_step (record step { result_summary = summary })
  waiting ← set_step_status (record step { result_summary = summary }) StepStatus.waiting
  write_step (executed waiting)
  set_status by_service awaiting_step_completion
  write_run (progress_before step.position)
  append_log step_executed (some step.id)
  complete_automatic ext step
  publish_status

unfoldable pub run_found : Externals → Option RunStep → Action Session Unit
unfolding after_handler
run_found ext none = raise (workflow_error workflow_step_not_found 404)
run_found ext (some step) =
    if not (ext.node_found step)
    then raise (workflow_error workflow_node_not_found 409)
    else after_handler ext step (ext.execute step)

-- The branch with a `step_id`.
unfoldable pub run_step_body : Externals → ℕ → Action Session Unit
unfolding run_found
run_step_body ext step_id s =
    if not (run_is RunStatus.running s.run)
    then (ok tt, s)
    else if not ext.workflow_found
    then raise (workflow_error workflow_not_found 409) s
    else run_found ext (find (has_step_id step_id) s.run.steps) s

unfoldable pub archived : Result RunStep → Action Session RunStep
archived (ok step) = pure step
archived (raised e) = raise e

unfoldable pub fail_analysis : Externals → Error → RunStep → Action Session RunStep
unfolding archived
fail_analysis ext e step s =
    if node_is data_statistics step
    then archived (finish_failed_analysis ext.archive s.now e step) s
    else (ok step, s)

unfoldable pub failed_with : ℕ → Error → RunStep → RunStep
failed_with now e step = record step { error_message = some (text_of e); finished_at = some now }

unfoldable pub retryable : TestRun → TestRun
retryable run = record run { error_code = none; error_message = none; finished_at = none }

unfoldable pub failed_run : ℕ → Error → TestRun → TestRun
failed_run now e run = record run {
  error_code = some (error_code e);
  error_message = some (text_of e);
  finished_at = some now;
}

-- The `except Exception` branch: with a running step the run waits for a retry, otherwise it fails.
unfoldable pub fail_step : Externals → Error → Option RunStep → Action Session Unit
unfolding fail_analysis failed_with retryable failed_run write_step
fail_step ext e (some step) = do
  stopped ← set_step_status step StepStatus.failed
  sealed ← fail_analysis ext e stopped
  s ← get
  write_step (failed_with s.now e sealed)
  set_status by_service awaiting_step_retry
  write_run retryable
  append_log step_failed (some step.id)
  publish_status
fail_step ext e none = do
  set_status by_service execution_failed
  s ← get
  write_run (failed_run s.now e)
  append_log run_failed none
  release_run_locks "execution_failed"
  publish_status

-- `except asyncio.CancelledError: pass` and the closing of the session: what has not been committed is
-- undone, and what has been published stays so.
unfoldable pub undone : Session → Session → Session
undone before s = record before { published = s.published }

-- The `except` branches; the first argument after the world is the session as it was last committed.
unfoldable pub handled :
    Externals → Session → Result (Unit {0}) × Session → Result (Unit {0}) × Session
unfolding fail_step undone
handled ext before (ok _, s) = (ok tt, s)
handled ext before (raised e, s) =
    if is_cancellation e
    then (ok tt, undone before s)
    else fail_step ext e (find (step_is StepStatus.running) s.run.steps) s

-- An exception of these branches closes the session too.
unfoldable pub closed_session : Session → Result (Unit {0}) × Session → Result (Unit {0}) × Session
unfolding undone
closed_session before (ok u, s) = (ok u, s)
closed_session before (raised e, s) = (raised e, undone before s)

unfoldable pub body : Externals → Option ℕ → Action Session Unit
unfolding start_run_body run_step_body
body ext none = start_run_body
body ext (some step_id) = run_step_body ext step_id

-- `start_workflow_run(run_id, step_id)`.
unfoldable pub start_workflow_run : Externals → Option ℕ → Action Session Unit
unfolding closed_session handled body
start_workflow_run ext step_id s =
    if not (is_set s.run.workflow_version_id)
    then (ok tt, s)
    else closed_session s (handled ext s (body ext step_id s))
