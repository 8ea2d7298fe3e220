-- ===== src/Workflow/Alignment/Starting.antt =====
-- The start of a run in `start_workflow_run` of backend/app/services/orchestration.py and the statuses
-- of the steps.
use open_slt.Prelude.{
  same, Bool-cases, ℕ, Bool, true, false, not, ◌∙◌, ◌||◌, ◌≡◌, ◌≢◌, ◌⊎◌, inl, inr, refl, none,
  arith, List, [], ◌∷◌, ◌++◌, if-cases,
}
use open_slt.Status.{
  RunStatus, StepStatus, RunStatus-discrete, draft, resource_queue, awaiting_step_start, completed,
  paused,
}
use open_slt.Domain.{RunStep, TestRun, ResourceLock}
use open_slt.Locks.{acquire_locks}
use open_slt.Relations.{run_resource_ids}
use open_slt.RunState.{by_service, run_transitions}
use open_slt.RunState.Table.{run_edge}
use open_slt.Session.{
  Session, run_started, log_published, set_status, append_log, publish_status, run_is,
}
use open_slt.Session.Ends.{Ends, goes_on}
use open_slt.Workflow.{advance_workflow, complete_run}
use open_slt.Workflow.Execution.{
  begin_run, begin_with, begun, queue_run, queued_behind, start_or_queue, start_run_body,
  is_startable,
}
use open_slt.Workflow.Alignment.{Aligned, Stands, At, AllPending, IsAligned}
use open_slt.Workflow.Alignment.Shape.{aligned, stands, AllPending-At, AllPending-NoneRunning}
use open_slt.Workflow.Alignment.Effects.{set_status-stays, set_status-allowed}
use open_slt.Workflow.Alignment.Waiting.{complete_run-Ends}
use open_slt.Workflow.Alignment.Advance.{advance_workflow-Ends}

-- From the queue the run may go to this status, or it is there.
abbrev IsEntry : RunStatus → Type 0
IsEntry t = (same RunStatus-discrete resource_queue t || run_edge resource_queue t) ≡ true

queue_start : IsEntry awaiting_step_start
unfolding run_transitions RunStatus-discrete
queue_start = refl

queue_completed : IsEntry completed
unfolding run_transitions RunStatus-discrete
queue_completed = refl

queue_queue : IsEntry resource_queue
unfolding RunStatus-discrete
queue_queue = refl

abbrev IsStartable : RunStatus → Type 0
IsStartable r = (r ≡ draft) ⊎ (r ≡ resource_queue)

-- What the run is left as where its start is refused: the draft that it was.
abbrev pub IsDraft : TestRun → Type 0
IsDraft = Stands draft AllPending

enters :
    (r t : RunStatus) (P : List RunStep → Type 0) (s : Session)
    → IsStartable r
    → Stands r P s.run
    → AllPending s.run.steps
    → IsEntry t
    → Ends (λ _. Stands t P) IsDraft (set_status by_service t s)
enters r t P s (inl d) h p e = set_status-stays IsDraft by_service r t P s h (h.0, (h.1.0 ∙ d, p))
enters r t P s (inr q) h p e =
    set_status-allowed IsDraft by_service resource_queue t P s (h.0, (h.1.0 ∙ q, h.1.1)) e

abbrev begun_session : Session → Session
begun_session s = record s { run = begun s.now s.run }

abbrev logged : Session → Session
logged s = record s {
  logs = s.logs ++ (record { event = run_started; step_id = none }) ∷ [];
  published = s.published ++ log_published (record { event = run_started; step_id = none }) ∷ [];
}

some_pending :
    (steps : List RunStep) (x : RunStep) (xs : List RunStep)
    → steps ≡ x ∷ xs
    → AllPending steps
    → At StepStatus.pending steps
some_pending [] x xs d h = cc
some_pending (y ∷ ys) x xs d h = AllPending-At y ys h

-- the run begins, from a draft or from the queue
begin_with-Ends :
    (r : RunStatus) (steps : List RunStep) (s : Session)
    → s.run.steps ≡ steps
    → IsStartable r
    → Stands r AllPending s.run
    → Ends Aligned IsDraft (begin_with steps s)
unfolding begin_with begun publish_status append_log
begin_with-Ends r [] s d w h =
    goes_on Aligned Aligned IsDraft _ (complete_run (begun_session s))
      (complete_run-Ends IsDraft AllPending (begun_session s) AllPending-NoneRunning
        (enters r completed AllPending (begun_session s) w h h.1.1 queue_completed))
      (λ _ _ q. q)
begin_with-Ends r (x ∷ xs) s d w h =
    goes_on (λ _. Stands awaiting_step_start here) Aligned IsDraft _
      (set_status by_service awaiting_step_start (begun_session s))
      (enters r awaiting_step_start here (begun_session s) w (h.0, (h.1.0, (h.1.1, d))) h.1.1
        queue_start)
      (λ _ s' q.
        goes_on Aligned Aligned IsDraft _ (advance_workflow (logged s'))
          (advance_workflow-Ends IsDraft (logged s')
            (inl (q.0, (q.1.0, some_pending s'.run.steps x xs q.1.1.1 q.1.1.0))))
          (λ _ _ p. p))
  where
    here : List RunStep → Type 0
    here steps = AllPending steps × (steps ≡ x ∷ xs)

begin_run-Ends :
    (r : RunStatus) (s : Session)
    → IsStartable r
    → Stands r AllPending s.run
    → Ends Aligned IsDraft (begin_run s)
unfolding begin_run
begin_run-Ends r s w h = begin_with-Ends r s.run.steps s refl w h

queue_run-Ends :
    (r : RunStatus) (conflicts : List ℕ) (s : Session)
    → IsStartable r
    → Stands r AllPending s.run
    → Ends Aligned IsDraft (queue_run conflicts s)
unfolding queue_run queued_behind append_log
queue_run-Ends r conflicts s w h =
    goes_on (λ _. Stands resource_queue AllPending) Aligned IsDraft _
      (set_status by_service resource_queue s)
      (enters r resource_queue AllPending s w h h.1.1 queue_queue)
      (λ _ s' q. aligned resource_queue s'.run q)

start_or_queue-Ends :
    (r : RunStatus) (answer : (Bool × List ℕ) × List ResourceLock) (s : Session)
    → IsStartable r
    → Stands r AllPending s.run
    → Ends Aligned IsDraft (start_or_queue answer s)
unfolding start_or_queue
start_or_queue-Ends r ((true, conflicts), locks) s w h =
    begin_run-Ends r (record s { locks = locks }) w h
start_or_queue-Ends r ((false, conflicts), locks) s w h =
    queue_run-Ends r conflicts (record s { locks = locks }) w h

draft_not_paused : draft ≢ paused
draft_not_paused e = ground (arith, e)

queue_not_paused : resource_queue ≢ paused
queue_not_paused e = ground (arith, e)

-- what a run that may start stands at
startable :
    (run : TestRun)
    → IsAligned run
    → is_startable run ≡ true
    → (r : RunStatus) × IsStartable r × Stands r AllPending run
startable run h e = elim (Bool-cases (run_is draft run)) [
  | inl d ↦ (draft, inl refl, stands draft run draft_not_paused (ground (arith, d)) h)
  | inr d ↦ (
    resource_queue,
    inr refl,
    stands resource_queue run queue_not_paused (ground (arith, d, e)) h,
  )
]

pub start_run_body-Ends : (s : Session) → IsAligned s.run → Ends Aligned IsDraft (start_run_body s)
unfolding start_run_body
start_run_body-Ends s h =
    if-cases (Ends Aligned IsDraft) (not (is_startable s.run)) (λ _. h)
      (λ e.
        let (r, w, g) = startable s.run h (ground (arith, e)) in
        start_or_queue-Ends r (acquire_locks s.now s.run.id (run_resource_ids s.run) 180 s.locks) s
          w g)
