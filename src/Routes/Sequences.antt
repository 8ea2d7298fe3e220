-- ===== src/Routes/Sequences.antt =====
-- The life of a run of a workflow: the requests of backend/app/api/routes/runs.py on it, its tasks and
-- its deadline (backend/app/services/orchestration.py), one after another.
use open_slt.Prelude.{ℕ, Option, true, ◌≡◌}
use open_slt.Errors.{Result, ok, raised}
use open_slt.Domain.{TestRun}
use open_slt.Session.{Session}
use open_slt.Workflow.Control.{is_timed_out, expire_run}
use open_slt.Workflow.Execution.{Externals, start_workflow_run}
use open_slt.Workflow.Alignment.{Aligned, IsAligned}
use open_slt.Workflow.Alignment.Handling.{IsFor, start_workflow_run-Ends}
use open_slt.Routes.Steps.{StepServices, complete_run_step, confirm_run_step, retry_run_step}
use open_slt.Routes.Steps.Aligning.{
  complete_run_step-IsAligned, confirm_run_step-IsAligned, retry_run_step-IsAligned,
}
use open_slt.Session.Ends.{Ends}
use open_slt.Workflow.Alignment.Stopping.{expire_run-IsAligned}
use open_slt.Routes.{run_start, run_pause, run_resume, run_cancel, run_retry, start_run_step}
use open_slt.Routes.Aligning.{
  run_start-IsAligned, run_pause-IsAligned, run_resume-IsAligned, run_cancel-IsAligned,
  run_retry-IsAligned, start_run_step-IsAligned,
}

-- One event, from the run before it to the run after it. What else is in the session (the locks, the
-- tasks, the instant) is another one each time, for other runs share it.
pub data Event (ext : Externals) (services : StepServices) : TestRun → TestRun → Type 0 where
  started : (actor : ℕ) (s : Session) → Event ext services s.run (run_start actor s).1.run
  step_begun : (i : ℕ) (s : Session) → Event ext services s.run (start_run_step i s).1.run
  step_completed :
      (i actor : ℕ) (s : Session)
      → Event ext services s.run (complete_run_step services i actor s).1.run
  step_confirmed :
      (i actor : ℕ) (s : Session)
      → Event ext services s.run (confirm_run_step services i actor s).1.run
  step_retried :
      (i : ℕ) (s : Session) → Event ext services s.run (retry_run_step services i s).1.run
  retried : (actor : ℕ) (s : Session) → Event ext services s.run (run_retry actor s).1.run
  was_paused : (actor : ℕ) (s : Session) → Event ext services s.run (run_pause actor s).1.run
  resumed : (actor : ℕ) (s : Session) → Event ext services s.run (run_resume actor s).1.run
  was_cancelled : (actor : ℕ) (s : Session) → Event ext services s.run (run_cancel actor s).1.run
  task_executed :
      (task : Option ℕ) (s : Session)
      → IsFor task s.run
      → Event ext services s.run (start_workflow_run ext task s).1.run
  expired :
      (s : Session)
      → is_timed_out s.now s.run ≡ true
      → Event ext services s.run (expire_run s).1.run

pub data Events (ext : Externals) (services : StepServices) : TestRun → TestRun → Type 0 where
  no_event : (run : TestRun) → Events ext services run run
  and_then :
      {a b c : TestRun} → Events ext services a b → Event ext services b c → Events ext services a c

-- what is left, whether it returned or raised
expired-IsAligned : (r : Result (Unit {0}) × Session) → Ends Aligned IsAligned r → IsAligned r.1.run
expired-IsAligned (ok u, s) h = h
expired-IsAligned (raised e, s) h = h

left-IsAligned :
    (r : Result (Unit {0}) × Session)
    → Ends Aligned (λ run. Unit {0} × IsAligned run) r
    → IsAligned r.1.run
left-IsAligned (ok u, s) h = h
left-IsAligned (raised e, s) h = h.1

module _ (ext : Externals) (services : StepServices) where
  Event-IsAligned : (a b : TestRun) → Event ext services a b → IsAligned a → IsAligned b
  Event-IsAligned a b (started actor s) h = run_start-IsAligned actor s h
  Event-IsAligned a b (step_begun i s) h = start_run_step-IsAligned i s h
  Event-IsAligned a b (step_completed i actor s) h =
      complete_run_step-IsAligned services i actor s h
  Event-IsAligned a b (step_confirmed i actor s) h = confirm_run_step-IsAligned services i actor s h
  Event-IsAligned a b (step_retried i s) h = retry_run_step-IsAligned services i s h
  Event-IsAligned a b (retried actor s) h = run_retry-IsAligned actor s h
  Event-IsAligned a b (was_paused actor s) h = run_pause-IsAligned actor s h
  Event-IsAligned a b (resumed actor s) h = run_resume-IsAligned actor s h
  Event-IsAligned a b (was_cancelled actor s) h = run_cancel-IsAligned actor s h
  Event-IsAligned a b (task_executed task s w) h =
      left-IsAligned (start_workflow_run ext task s)
        (start_workflow_run-Ends Unit ext (λ _ _. tt) task s h w)
  Event-IsAligned a b (expired s e) h =
      expired-IsAligned (expire_run s) (expire_run-IsAligned s e h)

-- The life of a run of a workflow as a sequence of: the requests `run_start`, `run_pause`, `run_resume`,
-- `run_cancel`, `run_retry`, `start_run_step`, `complete_run_step`, `confirm_run_step` and
-- `retry_run_step`; the execution of its task `start_workflow_run`, which for a running run must be the
-- task of a step that has begun; and its expiry after the deadline. Each ends before the next one
-- begins. Whatever they raise, a run that is aligned before them is aligned after them: the steps have
-- succeeded up to one, the ones after that are pending, and that one is pending, running, waiting or
-- failed as the status of the run says; in a run that is over no step is running.
pub Events-IsAligned :
    (ext : Externals) (services : StepServices) (a b : TestRun)
    → Events ext services a b
    → IsAligned a
    → IsAligned b
Events-IsAligned ext services a b (no_event run) h = h
Events-IsAligned ext services a c (and_then es e) h =
    Event-IsAligned ext services _ _ e (Events-IsAligned ext services _ _ es h)
