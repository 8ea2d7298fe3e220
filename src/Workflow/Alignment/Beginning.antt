-- ===== src/Workflow/Alignment/Beginning.antt =====
-- `begin_workflow_step` of backend/app/services/orchestration.py and the statuses of the steps.
use open_slt.Prelude.{ℕ, true, ◌≡◌, some, arith, ◌∙◌, List, ◌≢◌, if-cases, not, ◌||◌}
use open_slt.Status.{RunStatus, StepStatus, paused}
use open_slt.Errors.{Action}
use open_slt.Domain.{RunStep, TestRun}
use open_slt.RunState.{by_service}
use open_slt.Session.{
  Session, set_step_status, append_log, publish_status, has_step_id, write_step, set_step_status,
  put_step, set_status, current_step, run_is, step_is, is_set,
}
use open_slt.Session.Ends.{Ends, goes_on, Ends-weaken}
use open_slt.Workflow.{
  BeginMode, expected_status, expected_step_status, start, retry, reanalysis, start_current,
  begin_checked, begin_workflow_step, restarted, clear_error,
}
use open_slt.Workflow.Beginning.{counted, mode_run_edge, mode_step_edge, counted-Keeps, counted}
use open_slt.Workflow.Alignment.{Aligned, Stands, At, IsAligned, Fits}
use open_slt.Workflow.Alignment.Shape.{AtStep, At-first, aligned, AtStep-At, stands}
use open_slt.Workflow.Alignment.Effects.{set_status-Ends, set_step_status-Ends, put_step-Stands}

-- the step, and the run at it, in the given statuses
abbrev pub StepStands : RunStatus → StepStatus → ℕ → RunStep → TestRun → Type 0
StepStands r t i a run = ((a.id ≡ i) × (a.status ≡ t)) × Stands r (AtStep i t) run

module _ (E : TestRun → Type 0) where
  pub start_current-Ends :
      (mode : BeginMode) (step : RunStep) (s : Session)
      → Stands (expected_status mode) (AtStep step.id (expected_step_status mode)) s.run
      → step.status ≡ expected_step_status mode
      → Ends
          (λ _. Stands RunStatus.running (AtStep step.id StepStatus.running))
          E
          (start_current mode step s)
  unfolding start_current write_step clear_error restarted append_log publish_status
  start_current-Ends mode step s h k =
      goes_on (StepStands (expected_status mode) StepStatus.running step.id)
        (λ _. Stands RunStatus.running (AtStep step.id StepStatus.running)) E _
        (set_step_status (counted mode s.now step) StepStatus.running s)
        (set_step_status-Ends E (expected_status mode) step.id (expected_step_status mode)
          StepStatus.running (counted mode s.now step) s h (counted-Keeps mode s.now step).1
          ((counted-Keeps mode s.now step).0 ∙ k) (mode_step_edge mode))
        λ a s' g.
          goes_on (λ _. Stands RunStatus.running (AtStep step.id StepStatus.running))
            (λ _. Stands RunStatus.running (AtStep step.id StepStatus.running)) E _
            (set_status by_service RunStatus.running
              (record s' { run = put_step (restarted s.now a) s'.run }))
            (running a s' g) (λ _ _ q. q)
    where
      after : RunStep → Session → Session
      after a s' = record s' { run = put_step (restarted s.now a) s'.run }

      running :
          (a : RunStep) (s' : Session)
          → StepStands (expected_status mode) StepStatus.running step.id a s'.run
          → Ends
              (λ _. Stands RunStatus.running (AtStep step.id StepStatus.running))
              E
              (set_status by_service RunStatus.running (after a s'))
      running a s' g =
          set_status-Ends E by_service (expected_status mode) RunStatus.running
            (AtStep step.id StepStatus.running) (after a s')
            (put_step-Stands (expected_status mode) step.id StepStatus.running StepStatus.running
              (restarted s.now a) s'.run g.1 g.0.0 g.0.1)
            (mode_run_edge mode)

pub begun-IsAligned :
    (i : ℕ) (run : TestRun)
    → Stands RunStatus.running (AtStep i StepStatus.running) run
    → IsAligned run
begun-IsAligned i run h =
    aligned RunStatus.running run (h.0, (h.1.0, AtStep-At i StepStatus.running run.steps h.1.1))

mode_Fits :
    (mode : BeginMode) (steps : List RunStep)
    → Fits (expected_status mode) steps
    → At (expected_step_status mode) steps
mode_Fits start steps h = h
mode_Fits retry steps h = h
mode_Fits reanalysis steps h = h

not_paused : (mode : BeginMode) → expected_status mode ≢ paused
not_paused start e = ground (arith, e)
not_paused retry e = ground (arith, e)
not_paused reanalysis e = ground (arith, e)

not_succeeded : (mode : BeginMode) → expected_step_status mode ≢ StepStatus.succeeded
not_succeeded start e = ground (arith, e)
not_succeeded retry e = ground (arith, e)
not_succeeded reanalysis e = ground (arith, e)

begin_checked-Aligned :
    (mode : BeginMode) (i : ℕ) (s : Session)
    → IsAligned s.run
    → Stands (expected_status mode) (At (expected_step_status mode)) s.run
    → Ends Aligned IsAligned (begin_checked mode i (current_step s.run) s)
unfolding begin_checked
begin_checked-Aligned mode i s same h =
    let (c, f, e, a) =
      At-first (expected_status mode) (expected_step_status mode) s.run (not_succeeded mode) h in
    rw f (
      if-cases (λ (m : Action Session RunStep). Ends Aligned IsAligned (m s))
        (not (has_step_id i c)) (λ _. same)
        (λ _.
          if-cases (λ (m : Action Session RunStep). Ends Aligned IsAligned (m s))
            (not (step_is (expected_step_status mode) c)) (λ _. same)
            (λ _.
              Ends-weaken (λ _. Stands RunStatus.running (AtStep c.id StepStatus.running)) Aligned
                IsAligned (start_current mode c s) (λ _ run g. begun-IsAligned c.id run g)
                (start_current-Ends IsAligned mode c s a e))))

-- `begin_workflow_step` keeps the run aligned, whether it begins a step or refuses.
pub begin_workflow_step-Aligned :
    (mode : BeginMode) (i : ℕ) (s : Session)
    → IsAligned s.run
    → Ends Aligned IsAligned (begin_workflow_step i mode s)
unfolding begin_workflow_step
begin_workflow_step-Aligned mode i s h =
    if-cases (Ends Aligned IsAligned)
      (not (is_set s.run.workflow_version_id) || not (run_is (expected_status mode) s.run)) (λ _. h)
      (λ e. begin_checked-Aligned mode i s h (at_mode (ground (arith, e))))
  where
    at_mode :
        run_is (expected_status mode) s.run ≡ true
        → Stands (expected_status mode) (At (expected_step_status mode)) s.run
    at_mode e =
        let g = stands (expected_status mode) s.run (not_paused mode) (ground (arith, e)) h in
        (g.0, (g.1.0, mode_Fits mode s.run.steps g.1.1))

begin_checked-Ends :
    (E : TestRun → Type 0) (mode : BeginMode) (c : RunStep) (s : Session)
    → Stands (expected_status mode) (AtStep c.id (expected_step_status mode)) s.run
    → c.status ≡ expected_step_status mode
    → Ends
        (λ _. Stands RunStatus.running (AtStep c.id StepStatus.running))
        E
        (begin_checked mode c.id (some c) s)
unfolding begin_checked
begin_checked-Ends E mode c s h k = rw (is_asked, waits) (start_current-Ends E mode c s h k)
  where
    is_asked : has_step_id c.id c ≡ true
    is_asked = ground arith

    waits : step_is (expected_step_status mode) c ≡ true
    waits = ground arith

-- with its guards, the step begins
pub begin_workflow_step-Ends :
    (E : TestRun → Type 0) (mode : BeginMode) (c : RunStep) (s : Session)
    → Stands (expected_status mode) (AtStep c.id (expected_step_status mode)) s.run
    → current_step s.run ≡ some c
    → c.status ≡ expected_step_status mode
    → Ends
        (λ _. Stands RunStatus.running (AtStep c.id StepStatus.running))
        E
        (begin_workflow_step c.id mode s)
unfolding begin_workflow_step
begin_workflow_step-Ends E mode c s h f k = rw (h.0.0, waits, f) (begin_checked-Ends E mode c s h k)
  where
    waits : run_is (expected_status mode) s.run ≡ true
    waits = ground (arith, h.1.0)
