-- ===== src/Workflow/Legacy/Starting.antt =====
-- The start of a run of the older fixed sequence: `start_run` of
-- backend/app/services/orchestration.py.
use open_slt.Prelude.{ℕ, Bool, true, false, not, none, some, List, if◌then◌else◌}
use open_slt.Status.{StepStatus, precheck, awaiting_wiring, precheck_failed}
use open_slt.Errors.{
  Error, cancelled_error, precheck_failed_code, Result, ok, raised, Action, ◌>>=◌, ◌>>◌, get,
}
use open_slt.Domain.{StepCode, RunStep, ResourceLock}
use open_slt.RunState.{by_service}
use open_slt.Locks.{acquire_locks}
use open_slt.Relations.{run_resource_ids}
use open_slt.Session.{
  Session, run_started, run_failed, wiring_waiting, is_set, step_is, write_run, write_step,
  set_status, set_step_status, append_log, publish_status, release_run_locks,
}
use open_slt.Workflow.Execution.{begun, queue_run, is_startable, Externals, start_workflow_run}
use open_slt.Workflow.Legacy.{
  LegacyServices, step_of_code, perform_step, given_up_run, continue_after_wiring,
}

-- The rest of `start_run` once the resources are acquired.
unfoldable pub precheck_phase : LegacyServices → Action Session Unit
unfolding step_of_code perform_step
precheck_phase services = step_of_code StepCode.precheck >>= λ step. λ s.
    if step_is StepStatus.succeeded step
    then (ok tt, s)
    else perform_step services StepCode.precheck precheck s

unfoldable pub wait_for_wiring : LegacyServices → RunStep → Action Session Unit
unfolding continue_after_wiring write_step
wait_for_wiring services wiring =
    if step_is StepStatus.succeeded wiring
    then (set_status by_service awaiting_wiring >> continue_after_wiring services)
    else (set_step_status wiring StepStatus.waiting >>= λ waiting.
        set_status by_service awaiting_wiring
        >> (append_log wiring_waiting (some wiring.id) >> publish_status))

unfoldable pub begin_legacy : LegacyServices → Action Session Unit
unfolding precheck_phase wait_for_wiring
begin_legacy services = do
  set_status by_service precheck
  s ← get
  write_run (begun s.now)
  append_log run_started none
  precheck_phase services
  wiring ← step_of_code StepCode.wiring_confirmation
  wait_for_wiring services wiring

unfoldable pub legacy_or_queue :
    LegacyServices → (Bool × List ℕ) × List ResourceLock → Action Session Unit
unfolding begin_legacy queue_run
legacy_or_queue services ((true, _), locks) s = begin_legacy services (record s { locks = locks })
legacy_or_queue services ((false, conflicts), locks) s =
    queue_run conflicts (record s { locks = locks })

unfoldable pub fail_start : Error → Action Session Unit
unfolding given_up_run
fail_start e = do
  set_status by_service precheck_failed
  s ← get
  write_run (given_up_run precheck_failed_code s.now e)
  append_log run_failed none
  release_run_locks "precheck_failed"

-- The `except` branch, which a cancellation passes.
unfoldable pub after_start : Result (Unit {0}) × Session → Result (Unit {0}) × Session
unfolding fail_start
after_start (ok _, s) = (ok tt, s)
after_start (raised cancelled_error, s) = (raised cancelled_error, s)
after_start (raised e, s) = fail_start e s

-- `start_run`; a run with a workflow is passed on to `start_workflow_run`.
unfoldable pub start_run : LegacyServices → Externals → Action Session Unit
unfolding after_start legacy_or_queue start_workflow_run
start_run services ext s =
    if not (is_startable s.run)
    then (ok tt, s)
    else if is_set s.run.workflow_version_id
    then start_workflow_run ext none s
    else after_start (
        legacy_or_queue services (acquire_locks s.now s.run.id (run_resource_ids s.run) 180 s.locks)
          s)
