-- ===== src/Workflow/Alignment/Executing.antt =====
-- `start_workflow_run` of backend/app/services/orchestration.py and the statuses of the steps.
use open_slt.Prelude.{
  ap, ℕ, true, not, ◌∙◌, sym, ◌≡◌, refl, some, arith, [], ◌∷◌, ◌++◌, find, if-cases, if-both,
}
use open_slt.Status.{
  RunStatus, StepStatus, RunStatus-discrete, StepStatus-discrete, draft, awaiting_step_completion,
  awaiting_step_retry, execution_failed,
}
use open_slt.Errors.{Action, Result, raised, ok}
use open_slt.Domain.{RunStep, TestRun, Summary}
use open_slt.RunState.{by_service, run_transitions, step_transitions}
use open_slt.RunState.Table.{run_edge, step_edge}
use open_slt.Session.{
  Session, step_executed, log_published, append_log, publish_status, run_is, has_step_id, put_step,
  write_step,
}
use open_slt.Session.Effects.{set_status_edge, set_step_status_edge}
use open_slt.RunState.Transitions.{advanced}
use open_slt.Session.Ends.{Ends, goes_on}
use open_slt.Session.Puts.{own-put_step}
use open_slt.Workflow.{is_automatic}
use open_slt.Workflow.Execution.{
  Externals, executed, progress_before, complete_automatic, after_handler, run_found, run_step_body,
}
use open_slt.Workflow.Alignment.{Aligned, Stands, IsAligned}
use open_slt.Workflow.Alignment.Shape.{AtStep, AtStep-At, AtStep-find, aligned}
use open_slt.Workflow.Alignment.Effects.{put_step-Stands}
use open_slt.Workflow.Alignment.Completing.{automatic_completes}

abbrev pub IsRunning : ℕ → TestRun → Type 0
IsRunning i = Stands RunStatus.running (AtStep i StepStatus.running)

running_waiting : step_edge StepStatus.running StepStatus.waiting ≡ true
unfolding step_transitions StepStatus-discrete
running_waiting = refl

pub running_failed : step_edge StepStatus.running StepStatus.failed ≡ true
unfolding step_transitions StepStatus-discrete
running_failed = refl

running_completion : run_edge RunStatus.running awaiting_step_completion ≡ true
unfolding run_transitions RunStatus-discrete
running_completion = refl

pub running_retry : run_edge RunStatus.running awaiting_step_retry ≡ true
unfolding run_transitions RunStatus-discrete
running_retry = refl

pub draft_failed : run_edge draft execution_failed ≡ true
unfolding run_transitions RunStatus-discrete
draft_failed = refl

completion-IsAligned :
    (i : ℕ) (run : TestRun)
    → Stands awaiting_step_completion (AtStep i StepStatus.waiting) run
    → IsAligned run
completion-IsAligned i run q =
    aligned awaiting_step_completion run
      (q.0, (q.1.0, AtStep-At i StepStatus.waiting run.steps q.1.1))

-- the step with its result, and once it waits
abbrev handled_step : Summary → RunStep → RunStep
handled_step summary step = record step { result_summary = summary }

abbrev moved_step : Summary → RunStep → RunStep
moved_step summary step = record step { result_summary = summary; status = StepStatus.waiting }

abbrev waiting_step : Summary → RunStep → RunStep
waiting_step summary step = executed (moved_step summary step)

abbrev executed_run : Summary → RunStep → TestRun → TestRun
executed_run summary step run =
    put_step (waiting_step summary step)
      (put_step (moved_step summary step) (put_step (handled_step summary step) run))

abbrev executed_session : Summary → RunStep → Session → Session
executed_session summary step s = record s {
  run =
      progress_before step.position
        (advanced by_service (executed_run summary step s.run) awaiting_step_completion);
  logs = s.logs ++ (record { event = step_executed; step_id = some step.id }) ∷ [];
  published =
      s.published ++ log_published (record { event = step_executed; step_id = some step.id }) ∷ [];
}

executed_run-Stands :
    (i : ℕ) (summary : Summary) (step : RunStep) (s : Session)
    → IsRunning i s.run
    → step.id ≡ i
    → step.status ≡ StepStatus.running
    → Stands awaiting_step_completion
        (AtStep i StepStatus.waiting)
        (executed_session summary step s).run
unfolding executed progress_before
executed_run-Stands i summary step s h d k =
    let one =
      put_step-Stands RunStatus.running i StepStatus.running StepStatus.running
        (handled_step summary step) s.run h d k in
    let two =
      put_step-Stands RunStatus.running i StepStatus.running StepStatus.waiting
        (moved_step summary step) (put_step (handled_step summary step) s.run) one d refl in
    let three =
      put_step-Stands RunStatus.running i StepStatus.waiting StepStatus.waiting
        (waiting_step summary step) _ two d refl in
    (three.0, (refl, three.1.1))

executed_run-find :
    (i : ℕ) (summary : Summary) (step : RunStep) (s : Session)
    → step.id ≡ i
    → find (has_step_id i) s.run.steps ≡ some step
    → find (has_step_id i) (executed_session summary step s).run.steps
      ≡ some (waiting_step summary step)
unfolding executed progress_before put_step
executed_run-find i summary step s d f =
    ap (λ j. find (has_step_id j) (executed_session summary step s).run.steps) (sym d)
    ∙ own-put_step (waiting_step summary step) (moved_step summary step) _ (
        own-put_step (moved_step summary step) (handled_step summary step) _ (
          own-put_step (handled_step summary step) step s.run.steps
            (ap (λ j. find (has_step_id j) s.run.steps) d ∙ f)))

module _ (ext : Externals) (i : ℕ) where
  complete_automatic-Ends :
      (E : TestRun → Type 0) (step a : RunStep) (s : Session)
      → is_automatic step ≡ is_automatic a
      → step.id ≡ i
      → a.id ≡ i
      → a.status ≡ StepStatus.waiting
      → Stands awaiting_step_completion (AtStep i StepStatus.waiting) s.run
      → find (has_step_id i) s.run.steps ≡ some a
      → Ends Aligned E (complete_automatic ext step s)
  unfolding complete_automatic
  complete_automatic-Ends E step a s m j d k h f =
      if-cases (Ends Aligned E) (is_automatic step)
        (λ e. rw j (automatic_completes E ext.collect i s.run.created_by a s (sym m ∙ e) d k h f))
        (λ _. completion-IsAligned i s.run h)

  after_handler-Ends :
      (step : RunStep) (r : Result Summary) (s : Session)
      → IsRunning i s.run
      → find (has_step_id i) s.run.steps ≡ some step
      → step.id ≡ i
      → step.status ≡ StepStatus.running
      → Ends Aligned (IsRunning i) (after_handler ext step r s)
  unfolding after_handler write_step append_log publish_status executed progress_before
  after_handler-Ends step (raised e) s h f d k = h
  after_handler-Ends step (ok summary) s h f d k =
      rw
        (
          set_step_status_edge (handled_step summary step) StepStatus.waiting
              (record s { run = put_step (handled_step summary step) s.run })
              (rw k running_waiting),
          set_status_edge by_service awaiting_step_completion
              (record s { run = executed_run summary step s.run })
              (unfold put_step in rw h.1.0 running_completion),
        )
        (goes_on Aligned Aligned (IsRunning i) _
          (complete_automatic ext step (executed_session summary step s))
          (complete_automatic-Ends (IsRunning i) step (waiting_step summary step)
            (executed_session summary step s) refl d d refl
            (executed_run-Stands i summary step s h d k) (executed_run-find i summary step s d f))
          (λ _ _ q. q))

  run_found-Ends :
      (step : RunStep) (s : Session)
      → IsRunning i s.run
      → find (has_step_id i) s.run.steps ≡ some step
      → step.id ≡ i
      → step.status ≡ StepStatus.running
      → Ends Aligned (IsRunning i) (run_found ext (some step) s)
  unfolding run_found
  run_found-Ends step s h f d k =
      if-both (λ (m : Action Session Unit). Ends Aligned (IsRunning i) (m s))
        (not (ext.node_found step)) h (after_handler-Ends step (ext.execute step) s h f d k)

  pub IsRunning-body :
      (s : Session) → IsRunning i s.run → Ends Aligned (IsRunning i) (run_step_body ext i s)
  unfolding run_step_body
  IsRunning-body s h =
      let (c, f, k, d) = AtStep-find i StepStatus.running s.run.steps h.1.1 in
      rw (is_running, f)
        (if-both (Ends Aligned (IsRunning i)) (not ext.workflow_found) h
          (run_found-Ends c s h f d k))
    where
      is_running : run_is RunStatus.running s.run ≡ true
      is_running = ground (arith, h.1.0)
