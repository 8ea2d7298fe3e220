-- ===== src/Routes/Aligning.antt =====
-- The requests on a run of a workflow (backend/app/api/routes/runs.py), its tasks and its deadline: the
-- sequences of these, and the statuses of the steps.
use open_slt.Prelude.{
  if◌then◌else◌, subst, ℕ, Option, some, none, true, false, not, ◌≡◌, ◌≢◌, refl, arith, if-cases,
  if-both, find, Bool-cases, inl, inr, ◌||◌, same,
}
use open_slt.Status.{
  RunStatus, RunStatus-discrete, StepStatus, draft, resource_queue, paused, pausable_run_statuses,
}
use open_slt.Errors.{
  Action, ◌>>=◌, Result, ok, raised, raise, workflow_error, parser_terminal_required,
}
use open_slt.Domain.{RunStep, TestRun, TaskType, start_run_key, parser_parse}
use open_slt.RunState.{run_transitions}
use open_slt.RunState.Table.{run_edge, is_pausable, paused-edge}
use open_slt.Tasks.{is_supported}
use open_slt.Session.{Session, set_status, run_is, node_is, step_is, has_step_id}
use open_slt.Session.Ends.{Ends, goes_on}
use open_slt.Workflow.{begin_workflow_step, BeginMode}
use open_slt.Workflow.Control.{is_over}
use open_slt.Workflow.Alignment.{Aligned, Stands, AllPending, Fits, FitsRun, IsAligned}
use open_slt.Workflow.Alignment.Shape.{aligned, stands}
use open_slt.Workflow.Alignment.Effects.{set_status-allowed}
use open_slt.Workflow.Alignment.Beginning.{begin_workflow_step-Aligned}
use open_slt.Workflow.Alignment.Stopping.{cancel_run-IsAligned}
use open_slt.Routes.{
  committed, request, run_start, run_pause, run_resume, run_cancel, run_retry, retry_failed,
  start_run_step, is_parser, enqueue, by_api, run_task, step_task, is_pausable_run, pause_from,
  unpaused,
}
use open_slt.Routes.Pausing.{
  IsQuiet, enqueue-IsQuiet, enqueue_resumed-IsQuiet, committed-IsQuiet, pause, resume,
  paused_session, resumed_session,
}

-- The run that a request leaves is the one of its action, or of before where that raises.
pub committed-IsAligned :
    {A : Type 0} (E : TestRun → Type 0) (s : Session) (r : Result A × Session)
    → IsAligned s.run
    → Ends Aligned E r
    → IsAligned (committed s r).1.run
unfolding committed
committed-IsAligned E s (ok a, t) h k = k
committed-IsAligned E s (raised e, t) h k = h

quiet-Ends :
    (s : Session) (r : Result (Unit {0}) × Session)
    → IsQuiet r s
    → IsAligned s.run
    → Ends Aligned IsAligned r
quiet-Ends s (ok a, t) q h = rw q.same_run h
quiet-Ends s (raised e, t) q h = rw q.same_run h

quiet_run :
    (s : Session) (r : Result (Unit {0}) × Session)
    → IsQuiet r s
    → IsAligned s.run
    → IsAligned r.1.run
quiet_run s r q h = rw q.same_run h

-- a step begins, and its task is enqueued
pub begin_enqueue-Ends :
    (mode : BeginMode) (i : ℕ) (s : Session)
    → IsAligned s.run
    → Ends Aligned IsAligned ((begin_workflow_step i mode >>= λ step. enqueue (step_task step)) s)
begin_enqueue-Ends mode i s h =
    goes_on Aligned Aligned IsAligned _ (begin_workflow_step i mode s)
      (begin_workflow_step-Aligned mode i s h)
      (λ step t k.
        quiet-Ends t (enqueue (step_task step) t) (enqueue-IsQuiet (step_task step) t supported) k)
  where
    supported : is_supported TaskType.start_workflow_step ≡ true
    supported = unfold is_supported in refl

pub start_run_step-IsAligned :
    (i : ℕ) (s : Session) → IsAligned s.run → IsAligned (start_run_step i s).1.run
unfolding start_run_step request
start_run_step-IsAligned i s h =
    committed-IsAligned {A = Unit} IsAligned s
      (if is_parser (find (has_step_id i) s.run.steps)
        then raise (workflow_error parser_terminal_required 409) s
        else (begin_workflow_step i BeginMode.start >>= λ step. enqueue (step_task step)) s)
      h
      (if-both (Ends Aligned IsAligned) (is_parser (find (has_step_id i) s.run.steps))
        {x = raise (workflow_error parser_terminal_required 409) s} h
        (begin_enqueue-Ends BeginMode.start i s h))

retry_failed-Ends :
    (o : Option RunStep) (s : Session) → IsAligned s.run → Ends Aligned IsAligned (retry_failed o s)
unfolding retry_failed
retry_failed-Ends none s h = h
retry_failed-Ends (some f) s h =
    if-both (λ (m : Action Session Unit). Ends Aligned IsAligned (m s)) (node_is parser_parse f) h
      (begin_enqueue-Ends BeginMode.retry f.id s h)

pub run_retry-IsAligned :
    (actor : ℕ) (s : Session) → IsAligned s.run → IsAligned (run_retry actor s).1.run
unfolding run_retry request
run_retry-IsAligned actor s h = rw h.0.0 (
    committed-IsAligned IsAligned s (retry_failed (find (step_is StepStatus.failed) s.run.steps) s)
      h (retry_failed-Ends (find (step_is StepStatus.failed) s.run.steps) s h))

pub run_cancel-IsAligned :
    (actor : ℕ) (s : Session) → IsAligned s.run → IsAligned (run_cancel actor s).1.run
unfolding run_cancel request
run_cancel-IsAligned actor s h = committed-IsAligned IsAligned s _ h (
    if-both (Ends Aligned IsAligned) (is_over s.run) h
      (cancel_run-IsAligned "user_cancelled" (some actor) s h))

draft_queue : (same RunStatus-discrete draft resource_queue || run_edge draft resource_queue) ≡ true
unfolding run_transitions RunStatus-discrete
draft_queue = refl

queue_queue :
    (same RunStatus-discrete resource_queue resource_queue
      || run_edge resource_queue resource_queue)
    ≡ true
unfolding RunStatus-discrete
queue_queue = refl

starts_supported : is_supported TaskType.start_run ≡ true
unfolding is_supported
starts_supported = refl

queued :
    (actor : ℕ) (s : Session)
    → IsAligned s.run
    → (run_is draft s.run || run_is resource_queue s.run) ≡ true
    → Ends
        (λ _. Stands resource_queue AllPending)
        IsAligned
        (set_status (by_api actor "run started") resource_queue s)
queued actor s h e = elim (Bool-cases (run_is draft s.run)) [
  | inl d ↦
      set_status-allowed IsAligned (by_api actor "run started") draft resource_queue AllPending s
        (stands draft s.run draft_not_paused (ground (arith, d)) h) draft_queue
  | inr d ↦
      set_status-allowed IsAligned (by_api actor "run started") resource_queue resource_queue
        AllPending s (stands resource_queue s.run queue_not_paused (ground (arith, d, e)) h)
        queue_queue
]
  where
    draft_not_paused : draft ≢ paused
    draft_not_paused e = ground (arith, e)

    queue_not_paused : resource_queue ≢ paused
    queue_not_paused e = ground (arith, e)

pub run_start-IsAligned :
    (actor : ℕ) (s : Session) → IsAligned s.run → IsAligned (run_start actor s).1.run
unfolding run_start request
run_start-IsAligned actor s h = committed-IsAligned IsAligned s _ h (
    if-cases (Ends Aligned IsAligned) (not (run_is draft s.run || run_is resource_queue s.run))
      (λ _. h)
      (λ e.
        goes_on (λ _. Stands resource_queue AllPending) Aligned IsAligned _
          (set_status (by_api actor "run started") resource_queue s)
          (queued actor s h (ground (arith, e)))
          (λ _ t q.
            quiet-Ends t (enqueue (run_task TaskType.start_run start_run_key true) t)
              (enqueue-IsQuiet (run_task TaskType.start_run start_run_key true) t starts_supported)
              (aligned resource_queue t.run q))))

paused_not_pausable : is_pausable paused ≡ false
unfolding pausable_run_statuses RunStatus-discrete
paused_not_pausable = refl

pausable-Fits :
    (run : TestRun) → is_pausable run.status ≡ true → FitsRun run → Fits run.status run.steps
pausable-Fits run e (inl f) = f
pausable-Fits run e (inr f) = absurd (never f.0)
  where
    never : run.status ≡ paused → ⊥
    never p = ground (arith, e, p, paused_not_pausable)

paused-IsAligned :
    (actor : ℕ) (s : Session)
    → IsAligned s.run
    → is_pausable s.run.status ≡ true
    → IsAligned (paused_session actor s).run
unfolding paused_session pause_from
paused-IsAligned actor s h e = (h.0, inr (refl, s.run.status, refl, e, pausable-Fits s.run e h.1))

refused_pause :
    (actor : ℕ) (s : Session) → is_pausable_run s.run ≡ false → (run_pause actor s).1.run ≡ s.run
unfolding run_pause request committed
refused_pause actor s e = rw e refl

pub run_pause-IsAligned :
    (actor : ℕ) (s : Session) → IsAligned s.run → IsAligned (run_pause actor s).1.run
run_pause-IsAligned actor s h = elim (Bool-cases (is_pausable_run s.run)) [
  | inl e ↦ rw (pause actor s e) (paused-IsAligned actor s h e)
  | inr e ↦ rw (refused_pause actor s e) h
]

refused_resume :
    (actor : ℕ) (s : Session) → run_is paused s.run ≡ false → (run_resume actor s).1.run ≡ s.run
unfolding run_resume request committed
refused_resume actor s e = rw e refl

resumed-IsAligned :
    (actor : ℕ) (p : RunStatus) (s : Session)
    → IsAligned s.run
    → Fits p s.run.steps
    → IsAligned (resumed_session actor p s).run
unfolding resumed_session unpaused
resumed-IsAligned actor p s h f = (h.0, inl f)

paused-Fits :
    (run : TestRun)
    → run.status ≡ paused
    → FitsRun run
    → (p : RunStatus) × (run.paused_from ≡ some p) × (is_pausable p ≡ true) × Fits p run.steps
paused-Fits run e (inl f) = absurd (subst (λ r. Fits r run.steps) e f)
paused-Fits run e (inr f) = (f.1, f.2, f.3, f.4)

resumes :
    (actor : ℕ) (s : Session)
    → IsAligned s.run
    → s.run.status ≡ paused
    → IsAligned (run_resume actor s).1.run
resumes actor s h e =
    let (p, from, b, f) = paused-Fits s.run e h.1 in
    rw (resume actor p s e from (ground (arith, paused-edge p, b))) (
      quiet_run (resumed_session actor p s) _
        (committed-IsQuiet s (resumed_session actor p s) _
          (enqueue_resumed-IsQuiet p (resumed_session actor p s)))
        (resumed-IsAligned actor p s h f))

pub run_resume-IsAligned :
    (actor : ℕ) (s : Session) → IsAligned s.run → IsAligned (run_resume actor s).1.run
run_resume-IsAligned actor s h = elim (Bool-cases (run_is paused s.run)) [
  | inl e ↦ resumes actor s h (ground (arith, e))
  | inr e ↦ rw (refused_resume actor s e) h
]
