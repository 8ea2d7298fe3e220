-- ===== src/Examples/Runs.antt =====
-- The theorems about runs at one run of three steps.
use open_slt.Prelude.{refl, ◌≡◌, some, none, List, [], ◌∷◌}
use open_slt.Status.{
  RunStatus, RunStatus-discrete, StepStatus, draft, running, resource_queue, awaiting_step_start,
  completed, cancelled, timed_out, paused, terminal_run_statuses, pausable_run_statuses,
}
use open_slt.Errors.{ok}
use open_slt.RunState.{Origin, by_service}
use open_slt.RunState.Transitions.{attempts}
use open_slt.RunState.History.{HistoryIsComplete, attempts-HistoryIsComplete}
use open_slt.RunState.Reach.{attempts_final}
use open_slt.Workflow.Control.{cancel_run, expire_run, is_timed_out}
use open_slt.Workflow.Control.Stopping.{
  IsStopped, IsIdle, IsOver, cancel_run-IsStopped, expire_run-IsStopped,
}
use open_slt.Routes.{run_pause, run_resume}
use open_slt.Routes.Pausing.{run_pause-run_resume}
use open_slt.Examples.{run_of, session_of, three_steps}
use open_slt.Session.{Session}

-- a start, a request that the table refuses, and the beginning of the workflow
abbrev requests : List (Origin × RunStatus)
requests =
    (by_service, resource_queue) ∷ (by_service, running) ∷ (by_service, awaiting_step_start) ∷ []

attempts-HistoryIsComplete_example : HistoryIsComplete (attempts (run_of draft []) requests)
attempts-HistoryIsComplete_example =
    attempts-HistoryIsComplete (run_of draft []) requests (refl, refl)

attempts_final_example : attempts (run_of completed []) requests ≡ run_of completed []
attempts_final_example = attempts_final (run_of completed []) requests refl

abbrev running_session : Session
running_session = session_of (run_of running (three_steps StepStatus.running))

cancel_run-IsStopped_example :
    ((cancel_run "user_cancelled" (some 3) running_session).0 ≡ ok tt)
    × IsStopped cancelled IsIdle (cancel_run "user_cancelled" (some 3) running_session).1
unfolding terminal_run_statuses RunStatus-discrete
cancel_run-IsStopped_example = cancel_run-IsStopped "user_cancelled" (some 3) running_session refl

expire_run-IsStopped_example :
    ((expire_run running_session).0 ≡ ok tt)
    × IsStopped timed_out IsOver (expire_run running_session).1
unfolding terminal_run_statuses RunStatus-discrete is_timed_out
expire_run-IsStopped_example = expire_run-IsStopped running_session refl

abbrev queued_session : Session
queued_session = session_of (run_of resource_queue (three_steps StepStatus.pending))

run_pause-run_resume_example :
    let (r, p) = run_pause 3 queued_session in
    let (r', u) = run_resume 4 p in
    (r ≡ ok tt)
    × (p.run.status ≡ paused)
    × (r' ≡ ok tt)
    × (u.run.status ≡ resource_queue)
    × (u.run.paused_from ≡ none)
    × (u.run.steps ≡ three_steps StepStatus.pending)
    × (u.locks ≡ queued_session.locks)
    × (u.run.status_version ≡ 2)
unfolding pausable_run_statuses RunStatus-discrete
run_pause-run_resume_example = run_pause-run_resume 3 4 queued_session refl
