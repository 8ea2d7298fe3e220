-- ===== src/Workflow/Legacy.antt =====
-- The older fixed sequence of steps, for runs without a workflow: `_perform_step` and
-- `continue_after_wiring` of backend/app/services/orchestration.py. What other requests commit to the
-- run during a pause is a parameter, and so is the writing of the sample file.
pub mod Starting
pub mod Blocking
pub mod Retrying
use open_slt.Prelude.{
  ℕ, String, ◌*◌, min, Bool, true, false, not, ◌||◌, Option, none, some, List, [], ◌∷◌,
  if◌then◌else◌, find, same,
}
use open_slt.Status.{
  RunStatus, StepStatus, precheck, awaiting_wiring, capture_validation, environment_start,
  order_execution, collection, coco_parse, statistics, awaiting_review, execution_failed,
  parse_failed, precheck_failed,
}
use open_slt.Errors.{
  Code, Error, stop_iteration, cancelled_error, workflow_execution_failed, precheck_failed_code,
  execution_failed_code, Result, ok, raised, Action, ◌>>=◌, ◌>>◌, pure, raise, get,
}
use open_slt.Domain.{StepCode, StepCode-discrete, text_of, RunStep, TestRun, ResourceLock}
use open_slt.RunState.{by_service}
use open_slt.Locks.{acquire_locks}
use open_slt.Relations.{run_resource_ids}
use open_slt.Session.{
  Session, run_started, run_failed, review_waiting, wiring_waiting, wiring_confirmed, phase_started,
  phase_completed, is_set, step_is, run_is, write_run, write_step, set_status, set_step_status,
  append_log, publish_status, release_run_locks,
}
use open_slt.Workflow.Execution.{
  or_instant, begun, queue_run, is_startable, Externals, start_workflow_run,
}

pub record LegacyServices : Type 0 where
  -- what the run is after a pause in the step of this code
  pub meanwhile : StepCode → TestRun → TestRun
  pub create_sample_artifacts : Result (Unit {0})

abbrev pub has_code : StepCode → RunStep → Bool
has_code code step = same StepCode-discrete step.code code

-- `_step`; a missing step is a `StopIteration`.
unfoldable pub step_found : Option RunStep → Action Session RunStep
step_found none = raise stop_iteration
step_found (some step) = pure step

unfoldable pub step_of_code : StepCode → Action Session RunStep
unfolding step_found StepCode-discrete
step_of_code code s = step_found (find (has_code code) s.run.steps) s

unfoldable pub phase_begun : ℕ → RunStep → RunStep
phase_begun now step = record step { started_at = some now }

unfoldable pub phase_ended : ℕ → RunStep → RunStep
phase_ended now step = record step { progress = 100; finished_at = some now }

unfoldable pub phase_progress : ℕ → TestRun → TestRun
phase_progress position run = record run { progress = min 90 (position * 9) }

-- `_perform_step` after the pause; the step object is the one from before it.
unfoldable pub end_phase : StepCode → RunStep → Action Session Unit
unfolding phase_ended phase_progress write_step
end_phase code step s =
    if run_is RunStatus.cancelled s.run
    then (raised cancelled_error, s)
    else (set_step_status step StepStatus.succeeded >>= λ done.
          write_step (phase_ended s.now done)
          >> (write_run (phase_progress step.position)
              >> append_log (phase_completed code) (some step.id)))
        s

-- `_perform_step`.
unfoldable pub perform_step : LegacyServices → StepCode → RunStatus → Action Session Unit
unfolding step_of_code phase_begun end_phase write_step
perform_step services code run_status = do
  step ← step_of_code code
  set_status by_service run_status
  running ← set_step_status step StepStatus.running
  s ← get
  write_step (phase_begun s.now running)
  append_log (phase_started code) (some step.id)
  publish_status
  write_run (services.meanwhile code)
  end_phase code (phase_begun s.now running)

-- After `collection` the sample file is written, which may raise. The rows of artifacts and of metrics
-- are not part of a session.
unfoldable pub after_phase : LegacyServices → StepCode → Action Session Unit
after_phase services code s =
    if same StepCode-discrete code StepCode.collection
    then (services.create_sample_artifacts, s)
    else (ok tt, s)

unfoldable pub phase : LegacyServices → StepCode → RunStatus → Action Session Unit
unfolding step_of_code perform_step after_phase
phase services code run_status = step_of_code code >>= λ step. λ s.
    if step_is StepStatus.succeeded step
    then (ok tt, s)
    else (perform_step services code run_status >> after_phase services code) s

unfoldable pub phases : LegacyServices → List (StepCode × RunStatus) → Action Session Unit
unfolding phase
phases services [] = pure tt
phases services ((code, run_status) ∷ rest) = phase services code run_status >> phases services rest

abbrev pub all_phases : List (StepCode × RunStatus)
all_phases =
    (StepCode.capture_validation, capture_validation)
    ∷ (StepCode.environment_start, environment_start)
    ∷ (StepCode.order_execution, order_execution)
    ∷ (StepCode.collection, collection)
    ∷ (StepCode.coco_parse, coco_parse)
    ∷ (StepCode.statistics, statistics)
    ∷ []

unfoldable pub confirmed_wiring : ℕ → RunStep → RunStep
confirmed_wiring now step = record step {
  progress = 100;
  started_at = or_instant now step.started_at;
  finished_at = some now;
}

unfoldable pub reviewable : TestRun → TestRun
reviewable run = record run { progress = 90 }

unfoldable pub confirm_step : Action Session Unit
unfolding step_of_code confirmed_wiring write_step
confirm_step = do
  wiring ← step_of_code StepCode.wiring_confirmation
  done ← set_step_status wiring StepStatus.succeeded
  s ← get
  write_step (confirmed_wiring s.now done)
  append_log wiring_confirmed (some wiring.id)

unfoldable pub await_manual_review : Action Session Unit
unfolding step_of_code reviewable
await_manual_review = do
  review ← step_of_code StepCode.manual_review
  waiting ← set_step_status review StepStatus.waiting
  set_status by_service awaiting_review
  write_run reviewable
  append_log review_waiting (some review.id)
  publish_status

unfoldable pub continue_body : LegacyServices → Action Session Unit
unfolding confirm_step phases await_manual_review
continue_body services = confirm_step >> (phases services all_phases >> await_manual_review)

unfoldable pub stopped_running_step : ℕ → Error → RunStep → RunStep
stopped_running_step now e step = record step {
  error_message = some (text_of e);
  finished_at = some now;
}

unfoldable pub stop_running_step : Error → Option RunStep → Action Session Unit
unfolding stopped_running_step write_step
stop_running_step e none = pure tt
stop_running_step e (some step) = do
  failed ← set_step_status step StepStatus.failed
  s ← get
  write_step (stopped_running_step s.now e failed)

abbrev pub failed_status : Option RunStep → RunStatus
failed_status none = execution_failed
failed_status (some step) =
    if has_code StepCode.coco_parse step then parse_failed else execution_failed

abbrev pub failed_reason : Option RunStep → String
failed_reason none = "execution_failed"
failed_reason (some step) =
    if has_code StepCode.coco_parse step then "parse_failed" else "execution_failed"

abbrev pub step_id_of : Option RunStep → Option ℕ
step_id_of none = none
step_id_of (some step) = some step.id

unfoldable pub given_up_run : Code → ℕ → Error → TestRun → TestRun
given_up_run code now e run = record run {
  error_code = some code;
  error_message = some (text_of e);
  finished_at = some now;
}

-- The reason is the status that the run then has.
unfoldable pub give_up : Error → Option RunStep → Action Session Unit
unfolding stop_running_step given_up_run StepCode-discrete
give_up e step = do
  stop_running_step e step
  set_status by_service (failed_status step)
  s ← get
  write_run (given_up_run execution_failed_code s.now e)
  append_log run_failed (step_id_of step)
  release_run_locks (failed_reason step)

-- The `except` branches: a cancellation is passed over.
unfoldable pub continued : Result (Unit {0}) × Session → Result (Unit {0}) × Session
unfolding give_up
continued (ok _, s) = (ok tt, s)
continued (raised cancelled_error, s) = (ok tt, s)
continued (raised e, s) = give_up e (find (step_is StepStatus.running) s.run.steps) s

-- `continue_after_wiring`.
unfoldable pub continue_after_wiring : LegacyServices → Action Session Unit
unfolding continued continue_body
continue_after_wiring services s =
    if not (run_is awaiting_wiring s.run) then (ok tt, s) else continued (continue_body services s)
