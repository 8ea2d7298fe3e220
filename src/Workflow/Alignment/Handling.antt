-- ===== src/Workflow/Alignment/Handling.antt =====
-- The exception handler of `start_workflow_run` of backend/app/services/orchestration.py, the whole of
-- that function, and the statuses of the steps.
use open_slt.Analysis.Failing.{IsKept, Refuses, finish_failed_analysis-IsKept}
use open_slt.Analysis.{finish_failed_analysis}
use open_slt.Prelude.{
  any, ◌≢◌, ℕ, true, false, ◌∙◌, ◌≡◌, ◌⊎◌, inl, inr, refl, some, none, arith, Option, List, [], ◌∷◌,
  find, if-both, Bool-cases,
}
use open_slt.Status.{RunStatus, StepStatus, draft, paused, awaiting_step_retry, execution_failed}
use open_slt.Errors.{Result, Error, raised, ok, is_ok, is_cancellation}
use open_slt.Domain.{data_statistics, RunStep, TestRun}
use open_slt.RunState.{by_service}
use open_slt.Session.{
  Session, node_is, release_run_locks, set_status, set_step_status, append_log, publish_status,
  run_is, step_is, has_step_id, put_step, write_step,
}
use open_slt.Session.Ends.{Ends, goes_on}
use open_slt.Workflow.Execution.{
  Externals, run_step_body, start_run_body, undone, closed_session, handled, body, fail_step,
  fail_analysis, archived, failed_with, retryable, failed_run, start_workflow_run,
}
use open_slt.Workflow.Alignment.{Aligned, AllPending, Stands, IsAligned}
use open_slt.Workflow.Alignment.Shape.{
  AtStep, AtStep-At, AtStep-find, At-first, stands, aligned, AllPending-NoneRunning,
}
use open_slt.Workflow.Alignment.Effects.{set_status-Ends, set_step_status-Ends, put_step-Stands}
use open_slt.Workflow.Alignment.Beginning.{StepStands}
use open_slt.Workflow.Alignment.Starting.{IsDraft, start_run_body-Ends}
use open_slt.Workflow.Alignment.Redelivery.{is_yet_to_begin, run_step_body-again}
use open_slt.Workflow.Alignment.Executing.{IsRunning, running_failed, running_retry, draft_failed}

-- Archiving an analysis that has failed does not raise.
abbrev pub Archives : Externals → Type 0
Archives ext = (n : ℕ) → is_ok (ext.archive n) ≡ true

archived-Ends :
    (X : Type 0) (i : ℕ) (r : RunStatus) (step : RunStep) (s : Session) (new : Result RunStep)
    → StepStands r StepStatus.failed i step s.run
    → IsKept X step new
    → Ends (StepStands r StepStatus.failed i) (λ _. X) (archived new s)
unfolding archived
archived-Ends X i r step s (ok new) h k = ((k.0 ∙ h.0.0, k.1 ∙ h.0.1), h.1)
archived-Ends X i r step s (raised e) h k = k

fail_analysis-Ends :
    (X : Type 0) (ext : Externals) (e : Error) (i : ℕ) (r : RunStatus) (step : RunStep)
    (s : Session)
    → Refuses X ext.archive
    → StepStands r StepStatus.failed i step s.run
    → Ends (StepStands r StepStatus.failed i) (λ _. X) (fail_analysis ext e step s)
unfolding fail_analysis
fail_analysis-Ends X ext e i r step s a h =
    if-both (Ends (StepStands r StepStatus.failed i) (λ _. X)) (node_is data_statistics step)
      (archived-Ends X i r step s (finish_failed_analysis ext.archive s.now e step) h
        (finish_failed_analysis-IsKept X ext.archive s.now e step a))
      h

-- the exception handler, with the step that runs
fail_running-Ends :
    (X : Type 0) (ext : Externals) (e : Error) (i : ℕ) (step : RunStep) (s : Session)
    → Refuses X ext.archive
    → IsRunning i s.run
    → step.id ≡ i
    → step.status ≡ StepStatus.running
    → Ends Aligned (λ _. X) (fail_step ext e (some step) s)
unfolding fail_step write_step append_log publish_status failed_with retryable
fail_running-Ends X ext e i step s a h d k =
    goes_on (StepStands RunStatus.running StepStatus.failed i) Aligned (λ _. X) _
      (set_step_status step StepStatus.failed s)
      (set_step_status-Ends (λ _. X) RunStatus.running i StepStatus.running StepStatus.failed step s
        h d k running_failed)
      (λ b s' g.
        goes_on (StepStands RunStatus.running StepStatus.failed i) Aligned (λ _. X) _
          (fail_analysis ext e b s') (fail_analysis-Ends X ext e i RunStatus.running b s' a g)
          (λ c s'' q.
            goes_on (λ _. Stands awaiting_step_retry (AtStep i StepStatus.failed)) Aligned (λ _. X)
              _ (set_status by_service awaiting_step_retry (written c s''))
              (set_status-Ends (λ _. X) by_service RunStatus.running awaiting_step_retry
                (AtStep i StepStatus.failed) (written c s'')
                (put_step-Stands RunStatus.running i StepStatus.failed StepStatus.failed
                  (failed_with s''.now e c) s''.run q.1 q.0.0 q.0.1)
                running_retry)
              (λ _ s3 p. retry-IsAligned s3.run p)))
  where
    written : RunStep → Session → Session
    written c s'' = record s'' { run = put_step (failed_with s''.now e c) s''.run }

    retry-IsAligned :
        (run : TestRun)
        → Stands awaiting_step_retry (AtStep i StepStatus.failed) run
        → IsAligned run
    retry-IsAligned run q =
        aligned awaiting_step_retry run
          (q.0, (q.1.0, AtStep-At i StepStatus.failed run.steps q.1.1))

-- the exception handler, on a draft
fail_draft-Ends :
    (X : Type 0) (ext : Externals) (e : Error) (s : Session)
    → IsDraft s.run
    → Ends Aligned (λ _. X) (fail_step ext e none s)
unfolding fail_step append_log publish_status release_run_locks failed_run
fail_draft-Ends X ext e s h =
    goes_on (λ _. Stands execution_failed AllPending) Aligned (λ _. X) _
      (set_status by_service execution_failed s)
      (set_status-Ends (λ _. X) by_service draft execution_failed AllPending s h draft_failed)
      (λ _ s' q.
        aligned execution_failed s'.run (q.0, (q.1.0, AllPending-NoneRunning s'.run.steps q.1.1)))

is_not_paused : RunStatus.running ≢ paused
is_not_paused = cc

is_unfinished_yet : StepStatus.running ≢ StepStatus.succeeded
is_unfinished_yet = cc

-- the step that runs is the one that the exception handler finds
found_running :
    (i : ℕ) (steps : List RunStep)
    → AtStep i StepStatus.running steps
    → find (step_is StepStatus.running) steps ≡ find (has_step_id i) steps
found_running i [] h = refl
found_running i (x ∷ xs) (inl h) = ground (arith, found_running i xs h.2, h.0, h.1)
found_running i (x ∷ xs) (inr h) = ground (arith, h.0, h.1)

-- A run begins, or the step has begun if the run is running. The step may have succeeded already: a
-- task can be executed again.
abbrev pub IsFor : Option ℕ → TestRun → Type 0
IsFor none run = Unit
IsFor (some i) run =
    (run_is RunStatus.running run ≡ false) ⊎ (any (is_yet_to_begin i) run.steps ≡ false)

idle_body-Ends :
    (ext : Externals) (i : ℕ) (s : Session)
    → IsAligned s.run
    → run_is RunStatus.running s.run ≡ false
    → Ends Aligned (λ _. ⊥) (run_step_body ext i s)
unfolding run_step_body
idle_body-Ends ext i s h n = rw n h

-- an exception leaves a session that the handler of exceptions makes aligned, or a cancellation the
-- one from before
handled-Ends :
    (X : Type 0) (ext : Externals) (E : TestRun → Type 0) (before : Session)
    → IsAligned before.run
    → ((e : Error) (s : Session)
        → E s.run
        → Ends Aligned (λ _. X) (fail_step ext e (find (step_is StepStatus.running) s.run.steps) s))
    → (r : Result (Unit {0}) × Session) → Ends Aligned E r
    → Ends Aligned (λ _. X) (handled ext before r)
unfolding handled undone
handled-Ends X ext E before h k (ok _, s) g = g
handled-Ends X ext E before h k (raised e, s) g =
    if-both (Ends Aligned (λ _. X)) (is_cancellation e) h (k e s g)

module _ (X : Type 0) (ext : Externals) (refuses : Refuses X ext.archive) where
  fails_running :
      (i : ℕ) (e : Error) (s : Session)
      → IsRunning i s.run
      → Ends Aligned (λ _. X) (fail_step ext e (find (step_is StepStatus.running) s.run.steps) s)
  fails_running i e s h =
      let (c, f, k, d) = AtStep-find i StepStatus.running s.run.steps h.1.1 in
      rw (found_running i s.run.steps h.1.1 ∙ f) (fail_running-Ends X ext e i c s refuses h d k)

  fails_draft :
      (e : Error) (s : Session)
      → IsDraft s.run
      → Ends Aligned (λ _. X) (fail_step ext e (find (step_is StepStatus.running) s.run.steps) s)
  fails_draft e s h = rw (AllPending-NoneRunning s.run.steps h.1.1) (fail_draft-Ends X ext e s h)

  start_lem :
      (s : Session) → IsAligned s.run → Ends Aligned (λ _. X) (handled ext s (body ext none s))
  unfolding body
  start_lem s h =
      handled-Ends X ext IsDraft s h fails_draft (start_run_body s) (start_run_body-Ends s h)

  idle_lem :
      (i : ℕ) (s : Session)
      → IsAligned s.run
      → run_is RunStatus.running s.run ≡ false
      → Ends Aligned (λ _. X) (handled ext s (run_step_body ext i s))
  idle_lem i s h n =
      handled-Ends X ext (λ _. ⊥) s h (λ e s' g. absurd g) (run_step_body ext i s)
        (idle_body-Ends ext i s h n)

  step_lem :
      (i : ℕ) (s : Session)
      → IsAligned s.run
      → IsFor (some i) s.run
      → Ends Aligned (λ _. X) (handled ext s (body ext (some i) s))
  unfolding body
  step_lem i s h (inl n) = idle_lem i s h n
  step_lem i s h (inr n) = elim (Bool-cases (run_is RunStatus.running s.run)) [
    | inr m ↦ idle_lem i s h m
    | inl e ↦
        let (c, _, _, at) =
          At-first RunStatus.running StepStatus.running s.run is_unfinished_yet
            (stands RunStatus.running s.run is_not_paused (is_running e) h) in
        let (k, g) = run_step_body-again ext i c.id s at n in
        handled-Ends X ext (IsRunning k) s h (fails_running k) (run_step_body ext i s) g
  ]
    where
      is_running : run_is RunStatus.running s.run ≡ true → s.run.status ≡ RunStatus.running
      is_running e = ground arith

module _ (X : Type 0) (ext : Externals) (refuses : Refuses X ext.archive) where
  closed_session-Ends :
      (before : Session) (r : Result (Unit {0}) × Session)
      → IsAligned before.run
      → Ends Aligned (λ _. X) r
      → Ends Aligned (λ run. X × IsAligned run) (closed_session before r)
  unfolding closed_session undone
  closed_session-Ends before (ok u, s) h g = g
  closed_session-Ends before (raised e, s) h g = (g, h)

  -- it returns or raises, and leaves an aligned run
  pub start_workflow_run-Ends :
      (task : Option ℕ) (s : Session)
      → IsAligned s.run
      → IsFor task s.run
      → Ends Aligned (λ run. X × IsAligned run) (start_workflow_run ext task s)
  unfolding start_workflow_run
  start_workflow_run-Ends none s h w =
      rw h.0.0
        (closed_session-Ends s (handled ext s (body ext none s)) h (start_lem X ext refuses s h))
  start_workflow_run-Ends (some i) s h w = rw h.0.0 (
      closed_session-Ends s (handled ext s (body ext (some i) s)) h
        (step_lem X ext refuses i s h w))

returns :
    (r : Result (Unit {0}) × Session)
    → Ends Aligned (λ run. ⊥ × IsAligned run) r
    → (r.0 ≡ ok tt) × IsAligned r.1.run
returns (ok u, s) h = (refl, h)
returns (raised e, s) h = absurd h.0

does_not_refuse : (ext : Externals) → Archives ext → Refuses ⊥ ext.archive
does_not_refuse ext a n e = absurd (ground (arith, a n, e))

-- The task that starts an aligned run, and that of a step that has begun, if the run is running: whatever
-- the node's handler and the fetching of artifacts raise, a cancellation too, `start_workflow_run`
-- returns, and the run is aligned afterwards. Archiving an analysis that has failed must not raise.
pub start_workflow_run-IsAligned :
    (ext : Externals) (task : Option ℕ) (s : Session)
    → Archives ext
    → IsAligned s.run
    → IsFor task s.run
    → let (r, after) = start_workflow_run ext task s in (r ≡ ok tt) × IsAligned after.run
start_workflow_run-IsAligned ext task s a h w =
    returns (start_workflow_run ext task s)
      (start_workflow_run-Ends ⊥ ext (does_not_refuse ext a) task s h w)
