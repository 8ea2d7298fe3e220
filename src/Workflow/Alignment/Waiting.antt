-- ===== src/Workflow/Alignment/Waiting.antt =====
-- The parts of `advance_workflow` of backend/app/services/orchestration.py that wait, enqueue a task or
-- complete a run, and the statuses of the steps.
use open_slt.Prelude.{◌≢◌, ℕ, true, ◌≡◌, ◌⊎◌, inl, inr, refl, some, none, arith, List}
use open_slt.Status.{
  RunStatus, StepStatus, RunStatus-discrete, StepStatus-discrete, awaiting_review,
  awaiting_step_start, awaiting_step_completion, completed,
}
use open_slt.Errors.{Result, is_ok, raised, ok}
use open_slt.Domain.{RunStep, DurableTask, TestRun}
use open_slt.RunState.{by_service, run_transitions, step_transitions}
use open_slt.RunState.Table.{run_edge, step_edge}
use open_slt.Session.{
  Session, set_status, set_step_status, write_step, put_step, append_log, release_run_locks,
  current_step, step_is,
}
use open_slt.Tasks.{Enqueue, enqueue_task, is_supported, TaskTable}
use open_slt.Session.Ends.{Ends, goes_on}
use open_slt.Workflow.{
  await_wiring, unconfirmed, await_review, wait_for_report, complete_run, finish_run,
  stamp_finished, start_capture, enqueue_step, capture_task, scheduled_task, start, enqueue_task,
  begin_workflow_step,
}
use open_slt.Workflow.Alignment.{Aligned, NoneRunning, Stands, At, AllDone, IsAligned}
use open_slt.Workflow.Alignment.Shape.{AtStep, AtStep-At, aligned}
use open_slt.Workflow.Alignment.Effects.{set_status-Ends, set_step_status-Ends, put_step-Stands}
use open_slt.Workflow.Alignment.Beginning.{StepStands, begun-IsAligned, begin_workflow_step-Ends}

-- The places of a run from which the workflow advances: between two steps, or after a step that has
-- just succeeded.
abbrev pub IsBetween : TestRun → Type 0
IsBetween run =
    Stands awaiting_step_start (At StepStatus.pending) run
    ⊎ Stands awaiting_step_completion (λ steps. AllDone steps ⊎ At StepStatus.pending steps) run

start_completion : run_edge awaiting_step_start awaiting_step_completion ≡ true
unfolding run_transitions RunStatus-discrete
start_completion = refl

pub start_review : run_edge awaiting_step_start awaiting_review ≡ true
unfolding run_transitions RunStatus-discrete
start_review = refl

pub completion_start : run_edge awaiting_step_completion awaiting_step_start ≡ true
unfolding run_transitions RunStatus-discrete
completion_start = refl

pub completion_completed : run_edge awaiting_step_completion completed ≡ true
unfolding run_transitions RunStatus-discrete
completion_completed = refl

pub pending_unfinished : StepStatus.pending ≢ StepStatus.succeeded
pending_unfinished e = ground (arith, e)

pub completion_review : run_edge awaiting_step_completion awaiting_review ≡ true
unfolding run_transitions RunStatus-discrete
completion_review = refl

pending_waiting : step_edge StepStatus.pending StepStatus.waiting ≡ true
unfolding step_transitions StepStatus-discrete
pending_waiting = refl

enqueue_task-ok :
    (now : ℕ) (e : Enqueue) (table : TaskTable)
    → is_supported e.task_type ≡ true
    → is_ok (enqueue_task now e table).0 ≡ true
unfolding enqueue_task
enqueue_task-ok now e table h = ground arith

review-IsAligned :
    (i : ℕ) (run : TestRun)
    → Stands awaiting_review (AtStep i StepStatus.waiting) run
    → IsAligned run
review-IsAligned i run g =
    aligned awaiting_review run (g.0, (g.1.0, inl (AtStep-At i StepStatus.waiting run.steps g.1.1)))

module _ (E : TestRun → Type 0) where
  -- the step waits, and the run for its completion
  pub await_wiring-Ends :
      (c : RunStep) (s : Session)
      → Stands awaiting_step_start (AtStep c.id StepStatus.pending) s.run
      → c.status ≡ StepStatus.pending
      → Ends Aligned E (await_wiring c s)
  unfolding await_wiring unconfirmed append_log write_step
  await_wiring-Ends c s h k =
      goes_on (StepStands awaiting_step_start StepStatus.waiting c.id) Aligned E _
        (set_step_status c StepStatus.waiting s)
        (set_step_status-Ends E awaiting_step_start c.id StepStatus.pending StepStatus.waiting c s h
          refl k pending_waiting)
        (λ a s' g.
          goes_on (λ _. Stands awaiting_step_completion (AtStep c.id StepStatus.waiting)) Aligned E
            _ (set_status by_service awaiting_step_completion (written a s'))
            (set_status-Ends E by_service awaiting_step_start awaiting_step_completion
              (AtStep c.id StepStatus.waiting) (written a s')
              (put_step-Stands awaiting_step_start c.id StepStatus.waiting StepStatus.waiting
                (unconfirmed s'.now a) s'.run g.1 g.0.0 g.0.1)
              start_completion)
            (λ _ s'' q. waiting-IsAligned s''.run q))
    where
      written : RunStep → Session → Session
      written a s' = record s' { run = put_step (unconfirmed s'.now a) s'.run }

      waiting-IsAligned :
          (run : TestRun)
          → Stands awaiting_step_completion (AtStep c.id StepStatus.waiting) run
          → IsAligned run
      waiting-IsAligned run q =
          aligned awaiting_step_completion run
            (q.0, (q.1.0, AtStep-At c.id StepStatus.waiting run.steps q.1.1))

  scheduled_task-Ends :
      (r : Result DurableTask) (s : Session)
      → is_ok r ≡ true
      → IsAligned s.run
      → Ends Aligned E (scheduled_task s r)
  unfolding scheduled_task
  scheduled_task-Ends (ok t) s e h = h
  scheduled_task-Ends (raised x) s e h = cc

  enqueue_step-Ends :
      (c : RunStep) (s : Session) → IsAligned s.run → Ends Aligned E (enqueue_step c s)
  unfolding enqueue_step is_supported
  enqueue_step-Ends c s h =
      scheduled_task-Ends (enqueue_task s.now (capture_task s.run c) s.tasks).0
        (record s { tasks = (enqueue_task s.now (capture_task s.run c) s.tasks).1 })
        (enqueue_task-ok s.now (capture_task s.run c) s.tasks refl) h

  -- the step begins, and its task is enqueued
  pub start_capture-Ends :
      (c : RunStep) (s : Session)
      → Stands awaiting_step_start (AtStep c.id StepStatus.pending) s.run
      → current_step s.run ≡ some c
      → c.status ≡ StepStatus.pending
      → Ends Aligned E (start_capture c s)
  unfolding start_capture
  start_capture-Ends c s h f k =
      goes_on (λ _. Stands RunStatus.running (AtStep c.id StepStatus.running)) Aligned E _
        (begin_workflow_step c.id start s) (begin_workflow_step-Ends E start c s h f k)
        (λ _ s' q. enqueue_step-Ends c s' (begun-IsAligned c.id s'.run q))

  wait_for_report-Ends :
      (r : RunStatus) (c : RunStep) (s : Session)
      → Stands r (AtStep c.id StepStatus.pending) s.run
      → c.status ≡ StepStatus.pending
      → Ends (λ _. Stands r (AtStep c.id StepStatus.waiting)) E (wait_for_report (some c) s)
  unfolding wait_for_report
  wait_for_report-Ends r c s h k = rw is_pending (
      goes_on (StepStands r StepStatus.waiting c.id)
        (λ _. Stands r (AtStep c.id StepStatus.waiting)) E _
        (set_step_status c StepStatus.waiting s)
        (set_step_status-Ends E r c.id StepStatus.pending StepStatus.waiting c s h refl k
          pending_waiting)
        (λ _ _ g. g.1))
    where
      is_pending : step_is StepStatus.pending c ≡ true
      is_pending = ground arith

  -- the step waits, and the run for a review, from either place between two steps
  pub await_review-Ends :
      (r : RunStatus) (c : RunStep) (s : Session)
      → Stands r (AtStep c.id StepStatus.pending) s.run
      → run_edge r awaiting_review ≡ true
      → c.status ≡ StepStatus.pending
      → Ends Aligned E (await_review (some c) s)
  unfolding await_review append_log release_run_locks
  await_review-Ends r c s h e k =
      goes_on (λ _. Stands r (AtStep c.id StepStatus.waiting)) Aligned E _
        (wait_for_report (some c) s) (wait_for_report-Ends r c s h k)
        (λ _ s' q.
          goes_on (λ _. Stands awaiting_review (AtStep c.id StepStatus.waiting)) Aligned E _
            (set_status by_service awaiting_review s')
            (set_status-Ends E by_service r awaiting_review (AtStep c.id StepStatus.waiting) s' q e)
            (λ _ s'' g. review-IsAligned c.id s''.run g))

  pub review_done-Ends :
      (s : Session)
      → Stands awaiting_step_completion AllDone s.run
      → Ends Aligned E (await_review none s)
  unfolding await_review wait_for_report append_log release_run_locks
  review_done-Ends s h =
      goes_on (λ _. Stands awaiting_review AllDone) Aligned E _
        (set_status by_service awaiting_review s)
        (set_status-Ends E by_service awaiting_step_completion awaiting_review AllDone s h
          completion_review)
        (λ _ s' q. aligned awaiting_review s'.run (q.0, (q.1.0, inr q.1.1)))

  pub complete_run-Ends :
      (P : List RunStep → Type 0) (s : Session)
      → ((steps : List RunStep) → P steps → NoneRunning steps)
      → Ends (λ _. Stands completed P) E (set_status by_service completed s)
      → Ends Aligned E (complete_run s)
  unfolding complete_run finish_run stamp_finished append_log release_run_locks
  complete_run-Ends P s n h =
      goes_on (λ _. Stands completed P) Aligned E _ (set_status by_service completed s) h
        (λ _ s' q. aligned completed s'.run (q.0, (q.1.0, n s'.run.steps q.1.1)))
