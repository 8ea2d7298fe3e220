-- ===== src/Workflow/Control.antt =====
-- Stopping a run: `cancel_run` and `expire_timed_out_runs` of
-- backend/app/services/orchestration.py.
pub mod Stopping
use open_slt.Prelude.{
  ℕ, ◌+◌, Bool, true, false, not, ◌&&◌, ◌||◌, String, Option, none, some, List, [], ◌∷◌, ◌++◌,
  if◌then◌else◌, ◌==◌, leb, same, mem, length, is_none,
}
use open_slt.Status.{
  RunStatus, RunStatus-discrete, StepStatus, StepStatus-discrete, cancelled, timed_out,
  terminal_run_statuses,
}
use open_slt.Errors.{
  Code, Error, run_timed_out, Result, ok, raised, Action, ◌>>=◌, ◌>>◌, pure, raise, get,
}
use open_slt.Domain.{order_preparation, run_exceeded_deadline, RunStep, TestRun, ResourceLock}
use open_slt.Workflow.{stamp_finished}
use open_slt.RunState.{Origin, transition_run, transition_step}
use open_slt.Session.{
  Session, LogEvent, run_cancelled, run_is, step_is, node_is, write_run, set_status, append_log,
  publish_status, release_run_locks,
}

abbrev pub is_over : TestRun → Bool
is_over run = mem RunStatus-discrete run.status terminal_run_statuses

-- `if step.status in statuses: transition_step(step, "cancelled"); step.finished_at = ...`.
abbrev pub stop_step : (RunStep → Option ℕ) → Result RunStep → Result RunStep
stop_step stamp (ok step) = ok (record step { finished_at = stamp step })
stop_step stamp (raised e) = raised e

pub prepend : RunStep → Result (List RunStep) → Result (List RunStep)
prepend step (ok steps) = ok (step ∷ steps)
prepend step (raised e) = raised e

pub prepend_result : Result RunStep → Result (List RunStep) → Result (List RunStep)
unfolding prepend
prepend_result (ok step) rest = prepend step rest
prepend_result (raised e) rest = raised e

-- The loop over the steps: those with one of the statuses are cancelled, the others stay.
pub stop_steps : List StepStatus → (RunStep → Option ℕ) → List RunStep → Result (List RunStep)
unfolding prepend prepend_result
stop_steps statuses stamp [] = ok []
stop_steps statuses stamp (step ∷ steps) =
    let rest = stop_steps statuses stamp steps in
    if mem StepStatus-discrete step.status statuses
    then prepend_result (stop_step stamp (transition_step step StepStatus.cancelled)) rest
    else prepend step rest

unfoldable pub stored_steps : Result (List RunStep) → Session → Result (Unit {0}) × Session
stored_steps (ok steps) s = (ok tt, record s { run = record (s.run) { steps = steps } })
stored_steps (raised e) s = (raised e, s)

abbrev pub cancelled_statuses : List StepStatus
cancelled_statuses = StepStatus.running ∷ StepStatus.waiting ∷ []

unfoldable pub cancel_steps : Action Session Unit
unfolding stored_steps stop_steps
cancel_steps s = stored_steps (stop_steps cancelled_statuses (λ _. some s.now) s.run.steps) s

pub cancel_origin : String → Option ℕ → Origin
cancel_origin reason actor = record {
  source = if is_none actor then "service" else "api";
  actor_id = actor;
  reason = some reason;
}

-- `cancel_run(db, run, reason, actor_id)`.
unfoldable pub cancel_run : String → Option ℕ → Action Session Unit
unfolding cancel_steps stamp_finished cancel_origin terminal_run_statuses
cancel_run reason actor s =
    if is_over s.run
    then (ok tt, s)
    else (set_status (cancel_origin reason actor) cancelled
          >> (write_run (stamp_finished s.now)
              >> (cancel_steps
                  >> (append_log run_cancelled none
                      >> (release_run_locks reason >> publish_status)))))
        s

-- `timeout_at is not None and timeout_at <= now and status not in TERMINAL_RUN_STATUSES`.
unfoldable pub is_timed_out : ℕ → TestRun → Bool
unfolding terminal_run_statuses
is_timed_out now run =
    elim run.timeout_at [ none ↦ false | some t ↦ leb t now ] && not (is_over run)

abbrev pub expired_statuses : List StepStatus
expired_statuses =
    StepStatus.pending ∷ StepStatus.running ∷ StepStatus.waiting ∷ StepStatus.failed ∷ []

-- `step.finished_at or now`.
abbrev pub kept_stamp : ℕ → RunStep → Option ℕ
kept_stamp now step = elim step.finished_at [ none ↦ some now | some t ↦ some t ]

unfoldable pub timed_out_run : ℕ → TestRun → TestRun
timed_out_run now run = record run {
  finished_at = some now;
  error_code = some run_timed_out;
  error_message = some run_exceeded_deadline;
}

unfoldable pub expire_steps : Action Session Unit
unfolding stored_steps stop_steps
expire_steps s = stored_steps (stop_steps expired_statuses (kept_stamp s.now) s.run.steps) s

abbrev pub timeout_origin : Origin
timeout_origin = record {
  source = "scheduler";
  actor_id = none;
  reason = some "run timeout deadline exceeded";
}

-- The body of the loop of `expire_timed_out_runs`, for one run that has timed out.
unfoldable pub expire_run : Action Session Unit
unfolding expire_steps timed_out_run
expire_run s =
    (set_status timeout_origin timed_out
        >> (write_run (timed_out_run s.now)
            >> (expire_steps
                >> (append_log LogEvent.run_timed_out none
                    >> (release_run_locks "timed_out" >> publish_status)))))
      s

cleanup_of : List RunStep → List ℕ
cleanup_of [] = []
cleanup_of (step ∷ steps) =
    let rest = cleanup_of steps in
    if node_is order_preparation step && step.result_summary.process_started
    then step.id ∷ rest
    else rest

-- The order processes that are left to clean up after a run has timed out.
unfoldable pub cleanup_steps : TestRun → List ℕ
unfolding cleanup_of
cleanup_steps run = cleanup_of run.steps
