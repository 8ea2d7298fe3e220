-- ===== src/Workflow/Execution/Failure.antt =====
-- What `start_workflow_run` of backend/app/services/orchestration.py does when the handler of a
-- step's node raises.
use open_slt.Prelude.{
  Bool, Bool-cases, inl, inr, ◌≢◌, find-some, ℕ, true, false, ◌≡◌, refl, some, arith, find,
}
use open_slt.Status.{
  RunStatus, RunStatus-discrete, StepStatus, StepStatus-discrete, awaiting_step_retry,
}
use open_slt.Errors.{Error, is_cancellation, Result, ok, raised}
use open_slt.Domain.{RunStep, TestRun, text_of, data_statistics}
use open_slt.RunState.{by_service, run_transitions, step_transitions}
use open_slt.RunState.Table.{run_edge, step_edge}
use open_slt.RunState.Transitions.{advanced}
use open_slt.Session.{
  Session, put_step, write_step, append_log, publish_status, is_set, has_step_id, step_is, node_is,
  run_is,
}
use open_slt.Session.Effects.{set_status_edge, set_step_status_edge}
use open_slt.Session.Puts.{put_step_again, own-put_step, other-put_step}
use open_slt.Workflow.Execution.{
  Externals, start_workflow_run, body, run_step_body, run_found, after_handler, undone,
  closed_session, handled, fail_step, fail_analysis, archived, failed_with, retryable,
}

running_edge : run_edge RunStatus.running awaiting_step_retry ≡ true
unfolding run_transitions RunStatus-discrete
running_edge = refl

step_failed_edge : step_edge StepStatus.running StepStatus.failed ≡ true
unfolding step_transitions StepStatus-discrete
step_failed_edge = refl

stopped_step : RunStep → RunStep
stopped_step step = record step { status = StepStatus.failed }

-- the run after the exception handler
after_failure : ℕ → Error → RunStep → TestRun → TestRun
after_failure now e step run = retryable (
    advanced by_service
      (put_step (failed_with now e (stopped_step step)) (put_step (stopped_step step) run))
      awaiting_step_retry)

fail_step_lem :
    (ext : Externals) (e : Error) (step : RunStep) (s : Session)
    → s.run.status ≡ RunStatus.running
    → step.status ≡ StepStatus.running
    → node_is data_statistics step ≡ false
    → ((fail_step ext e (some step) s).0 ≡ ok tt)
      × ((fail_step ext e (some step) s).1.run ≡ after_failure s.now e step s.run)
      × ((fail_step ext e (some step) s).1.locks ≡ s.locks)
unfolding fail_step fail_analysis archived stopped_step after_failure write_step append_log
    publish_status failed_with
fail_step_lem ext e step s h k n =
    rw
      (
        set_step_status_edge step StepStatus.failed s (rw k step_failed_edge),
        n,
        set_status_edge by_service awaiting_step_retry
            (record s {
              run =
                  put_step (failed_with s.now e (stopped_step step))
                    (put_step (stopped_step step) s.run);
            })
            (unfold put_step in rw h running_edge),
      )
      (refl, refl, refl)

body_raises :
    (ext : Externals) (i : ℕ) (e : Error) (step : RunStep) (s : Session)
    → s.run.status ≡ RunStatus.running
    → ext.workflow_found ≡ true
    → find (has_step_id i) s.run.steps ≡ some step
    → ext.node_found step ≡ true
    → ext.execute step ≡ raised e
    → body ext (some i) s ≡ (raised e, s)
unfolding body run_step_body run_found after_handler
body_raises ext i e step s h w f n x = rw (is_running, w, f, n, x) refl
  where
    is_running : run_is RunStatus.running s.run ≡ true
    is_running = ground arith

-- The step, once its handler has raised `e`, and the run.
pub record HasFailed (i : ℕ) (e : Error) (before after : TestRun) : Type 0 where
  failed : RunStep
  awaits_retry : after.status ≡ awaiting_step_retry
  is_there : find (has_step_id i) after.steps ≡ some failed
  has_failed : failed.status ≡ StepStatus.failed
  tells_why : failed.error_message ≡ some (text_of e)
  others_kept :
      (j : ℕ) → j ≢ i → find (has_step_id j) after.steps ≡ find (has_step_id j) before.steps

after_failure-HasFailed :
    (now : ℕ) (e : Error) (step : RunStep) (run : TestRun)
    → find (has_step_id step.id) run.steps ≡ some step
    → HasFailed step.id e run (after_failure now e step run)
unfolding after_failure failed_with stopped_step retryable put_step
after_failure-HasFailed now e step run f = record {
  failed = failed_with now e (stopped_step step);
  awaits_retry = refl;
  is_there =
      rw (put_step_again (failed_with now e (stopped_step step)) (stopped_step step) run.steps refl)
        (own-put_step (failed_with now e (stopped_step step)) step run.steps f);
  has_failed = refl;
  tells_why = refl;
  others_kept = λ j n.
      rw (put_step_again (failed_with now e (stopped_step step)) (stopped_step step) run.steps refl)
        (other-put_step (failed_with now e (stopped_step step)) j run.steps n);
}

closed_session_ok :
    (before : Session) (r : Result (Unit {0}) × Session) → r.0 ≡ ok tt → closed_session before r ≡ r
unfolding closed_session
closed_session_ok before (ok u, s) h = refl
closed_session_ok before (raised e, s) h = cc

-- What becomes of a step whose handler has raised, by whether that is a cancellation.
abbrev pub AfterRaise : Bool → ℕ → Error → TestRun → TestRun → Type 0
AfterRaise true i e before after = after ≡ before
AfterRaise false i e before after = HasFailed i e before after

-- The task of a step of a running run of a workflow: the step is not a statistics step and is the first
-- running one of the run, as it is after `begin_workflow_step`; the workflow and the node are there, and
-- the node's handler raises. `start_workflow_run` returns and releases no lock. After a cancellation
-- the run and its steps are as they were, the step still running. After any other exception the step has
-- failed and tells the exception, the run waits for a retry, and the other steps are as they were.
pub start_workflow_run-HasFailed :
    (ext : Externals) (e : Error) (step : RunStep) (s : Session)
    → is_set s.run.workflow_version_id ≡ true
    → s.run.status ≡ RunStatus.running
    → ext.workflow_found ≡ true
    → find (has_step_id step.id) s.run.steps ≡ some step
    → find (step_is StepStatus.running) s.run.steps ≡ some step
    → node_is data_statistics step ≡ false
    → ext.node_found step ≡ true
    → ext.execute step ≡ raised e
    → let (r, after) = start_workflow_run ext (some step.id) s in
      (r ≡ ok tt)
      × AfterRaise (is_cancellation e) step.id e s.run after.run
      × (after.locks ≡ s.locks)
unfolding start_workflow_run handled undone
start_workflow_run-HasFailed ext e step s v h w f g d n x =
    rw (v, body_raises ext step.id e step s h w f n x, g)
      (elim (Bool-cases (is_cancellation e)) [
        | inl c ↦ rw c (unfold closed_session in (refl, refl, refl))
        | inr c ↦
            rw (c, closed_session_ok s (fail_step ext e (some step) s) failing.0)
              (failing.0, rw failing.1 (after_failure-HasFailed s.now e step s.run f), failing.2)
      ])
  where
    is_running : step.status ≡ StepStatus.running
    is_running = ground (arith, find-some (step_is StepStatus.running) s.run.steps step g)

    failing :
        ((fail_step ext e (some step) s).0 ≡ ok tt)
        × ((fail_step ext e (some step) s).1.run ≡ after_failure s.now e step s.run)
        × ((fail_step ext e (some step) s).1.locks ≡ s.locks)
    failing = fail_step_lem ext e step s h is_running d
