-- ===== src/Session.antt =====
-- What a service function of backend/app/services/orchestration.py works on: one run with its steps,
-- and the tables and queues beside it. `beijing_now()` gives `now`, the same instant throughout one
-- call. `append_log` and the mutations of the run and its steps are actions on this record.
pub mod Effects
pub mod Puts
pub mod Ends
use open_slt.Prelude.{
  ℕ, ◌+◌, Bool, true, false, not, ◌&&◌, Option, none, some, List, [], ◌∷◌, ◌++◌, if◌then◌else◌,
  ◌==◌, same, find, modify_first,
}
use open_slt.Status.{RunStatus, RunStatus-discrete, StepStatus, StepStatus-discrete}
use open_slt.Errors.{Result, ok, raised, Action, ◌>>=◌}
use open_slt.Domain.{NodeType, NodeType-discrete, StepCode, RunStep, TestRun, ResourceLock}
use open_slt.RunState.{Origin, transition_run, transition_step}
use open_slt.Locks.{release_locks}
use open_slt.Prelude.{String}
use open_slt.Tasks.{TaskTable}

pub data LogEvent : Type 0 where
  run_started run_queued run_completed run_failed run_cancelled run_timed_out : LogEvent
  review_waiting wiring_waiting wiring_confirmed : LogEvent
  step_started step_retried reanalysis_started step_executed step_failed step_completed : LogEvent
  phase_started phase_completed : StepCode → LogEvent

-- A `LogRecord`: the event and the step that it is about.
pub record LogEntry : Type 0 where
  pub event : LogEvent
  pub step_id : Option ℕ

-- What `broker.publish` sends to the browsers that watch the run.
pub data Publication : Type 0 where
  log_published : LogEntry → Publication
  status_published : RunStatus → ℕ → Publication

pub record Session : Type 0 where
  pub run : TestRun
  pub locks : List ResourceLock
  pub tasks : TaskTable
  pub logs : List LogEntry
  pub published : List Publication
  pub scheduled : List ℕ
  pub now : ℕ

-- `if x` on an optional number.
abbrev pub is_set : Option ℕ → Bool
is_set none = false
is_set (some n) = not (n == 0)

abbrev pub run_is : RunStatus → TestRun → Bool
run_is s run = same RunStatus-discrete run.status s

abbrev pub step_is : StepStatus → RunStep → Bool
step_is s step = same StepStatus-discrete step.status s

abbrev pub node_is : NodeType → RunStep → Bool
node_is n step = same NodeType-discrete step.node_type n

abbrev pub has_step_id : ℕ → RunStep → Bool
has_step_id i step = step.id == i

abbrev pub is_unfinished : RunStep → Bool
is_unfinished step = not (step_is StepStatus.succeeded step)

-- `next((item for item in run.steps if item.status != "succeeded"), None)`.
abbrev pub current_step : TestRun → Option RunStep
current_step run = find is_unfinished run.steps

-- The fields of a step object are written: the object is the run's step of that id.
unfoldable pub put_step : RunStep → TestRun → TestRun
put_step step run = record run { steps = modify_first (has_step_id step.id) (λ _. step) run.steps }

abbrev pub write_run : (TestRun → TestRun) → Action Session Unit
write_run f s = (ok tt, record s { run = f s.run })

unfoldable pub write_step : RunStep → Action Session Unit
unfolding put_step
write_step step = write_run (put_step step)

stored_run : Result TestRun → Session → Result (Unit {0}) × Session
stored_run (ok run) s = (ok tt, record s { run = run })
stored_run (raised e) s = (raised e, s)

-- `transition_run(run, target)`.
unfoldable pub set_status : Origin → RunStatus → Action Session Unit
unfolding stored_run
set_status o target s = stored_run (transition_run o s.run target) s

stored_step : Result RunStep → Session → Result RunStep × Session
unfolding put_step
stored_step (ok step) s = (ok step, record s { run = put_step step s.run })
stored_step (raised e) s = (raised e, s)

-- `transition_step(step, target)`; the result is the step object afterwards.
unfoldable pub set_step_status : RunStep → StepStatus → Action Session RunStep
unfolding stored_step
set_step_status step target = stored_step (transition_step step target)

unfoldable pub append_log : LogEvent → Option ℕ → Action Session Unit
append_log event step_id s =
    let entry : LogEntry = record { event = event; step_id = step_id } in
    (
      ok tt,
      record s { logs = s.logs ++ entry ∷ []; published = s.published ++ log_published entry ∷ [] },
    )

unfoldable pub publish_status : Action Session Unit
publish_status s = (
  ok tt,
  record s { published = s.published ++ status_published s.run.status s.run.progress ∷ [] },
)

unfoldable pub release_run_locks : String → Action Session Unit
release_run_locks reason s =
    (ok tt, record s { locks = (release_locks s.now s.run.id reason s.locks).1 })
