-- ===== src/Workflow/Beginning.antt =====
-- When `begin_workflow_step` of backend/app/services/orchestration.py begins a step, and what it
-- changes.
use open_slt.Prelude.{
  if-both, ◌≢◌, sym, ℕ, true, false, not, ◌≡◌, refl, ◌∙◌, inl, inr, Option, some, none, arith,
  Bool-cases, find, same,
}
use open_slt.Status.{RunStatus, RunStatus-discrete, StepStatus, StepStatus-discrete}
use open_slt.Errors.{
  invalid_workflow_step, invalid_transition, Code, Result, ok, raised, workflow_error,
}
use open_slt.Domain.{data_statistics, RunStep, TestRun}
use open_slt.RunState.{by_service, run_transitions, step_transitions}
use open_slt.RunState.Table.{run_edge, step_edge}
use open_slt.RunState.Transitions.{advanced}
use open_slt.Session.{
  Session, run_is, step_is, put_step, write_step, append_log, publish_status, is_set, current_step,
  has_step_id, node_is,
}
use open_slt.Analysis.{reserve_statistics_analysis}
use open_slt.Session.Effects.{set_status_edge, set_step_status_edge}
use open_slt.Session.Puts.{put_step_again, current-put_step, other-put_step}
use open_slt.Workflow.{
  BeginMode, start, retry, reanalysis, expected_status, expected_step_status, count_retry, reserve,
  restarted, clear_error, start_current, begin_checked, begin_workflow_step,
}

-- The table allows what each of the three modes asks for.
pub mode_run_edge : (mode : BeginMode) → run_edge (expected_status mode) RunStatus.running ≡ true
unfolding run_transitions RunStatus-discrete
mode_run_edge start = refl
mode_run_edge retry = refl
mode_run_edge reanalysis = refl

pub mode_step_edge :
    (mode : BeginMode) → step_edge (expected_step_status mode) StepStatus.running ≡ true
unfolding step_transitions StepStatus-discrete
mode_step_edge start = refl
mode_step_edge retry = refl
mode_step_edge reanalysis = refl

abbrev pub counted : BeginMode → ℕ → RunStep → RunStep
counted mode now step = count_retry mode (reserve now step)

-- `f step` is the same step, in the same status.
abbrev pub Keeps : RunStep → RunStep → Type 0
Keeps step new = (new.status ≡ step.status) × (new.id ≡ step.id)

reserve-Keeps : (now : ℕ) (step : RunStep) → Keeps step (reserve now step)
unfolding reserve reserve_statistics_analysis
reserve-Keeps now step =
    if-both (Keeps step) (node_is data_statistics step) (refl, refl) (refl, refl)

pub counted-Keeps :
    (mode : BeginMode) (now : ℕ) (step : RunStep) → Keeps step (counted mode now step)
unfolding count_retry
counted-Keeps start now step = reserve-Keeps now step
counted-Keeps retry now step = reserve-Keeps now step
counted-Keeps reanalysis now step = reserve-Keeps now step

-- the step as it is begun
begun_step : BeginMode → ℕ → RunStep → RunStep
begun_step mode now step =
    restarted now (record (counted mode now step) { status = StepStatus.running })

begun_run : BeginMode → ℕ → RunStep → TestRun → TestRun
begun_run mode now step run = clear_error (
    advanced by_service
      (put_step (begun_step mode now step)
        (put_step (record (counted mode now step) { status = StepStatus.running }) run))
      RunStatus.running)

start_current_lem :
    (mode : BeginMode) (step : RunStep) (s : Session)
    → s.run.status ≡ expected_status mode
    → step.status ≡ expected_step_status mode
    → ((start_current mode step s).0 ≡ ok (begun_step mode s.now step))
      × ((start_current mode step s).1.run ≡ begun_run mode s.now step s.run)
unfolding start_current begun_step begun_run write_step append_log publish_status put_step
start_current_lem mode step s h k =
    rw
      (
        set_step_status_edge (count_retry mode (reserve s.now step)) StepStatus.running s
            step_allowed,
        set_status_edge by_service RunStatus.running
            (record s {
              run = put_step (begun_step mode s.now step) (
                  put_step (record (counted mode s.now step) { status = StepStatus.running })
                    s.run);
            })
            run_allowed,
      )
      (refl, refl)
  where
    step_allowed :
        step_edge (count_retry mode (reserve s.now step)).status StepStatus.running ≡ true
    step_allowed = rw ((counted-Keeps mode s.now step).0, k) (mode_step_edge mode)

    run_allowed : run_edge s.run.status RunStatus.running ≡ true
    run_allowed = rw h (mode_run_edge mode)

-- The guards of `begin_workflow_step`: the run has a workflow, it has the status and its first
-- unfinished step has the status that the mode asks for, and the request is for that step.
pub record CanBegin (mode : BeginMode) (i : ℕ) (current : RunStep) (run : TestRun) : Type 0 where
  has_workflow : is_set run.workflow_version_id ≡ true
  run_waits : run.status ≡ expected_status mode
  is_first : current_step run ≡ some current
  is_asked : current.id ≡ i
  step_waits : current.status ≡ expected_step_status mode

-- The step `i` has begun: the run and its first unfinished step, which is `i`, are running, from no
-- progress, and every other step is as it was.
pub record HasBegun (i : ℕ) (before after : TestRun) : Type 0 where
  begun : RunStep
  run_runs : after.status ≡ RunStatus.running
  is_first : current_step after ≡ some begun
  is_asked : begun.id ≡ i
  step_runs : begun.status ≡ StepStatus.running
  no_progress : begun.progress ≡ 0
  others_kept :
      (j : ℕ) → j ≢ i → find (has_step_id j) after.steps ≡ find (has_step_id j) before.steps

running_unfinished : not (same StepStatus-discrete StepStatus.running StepStatus.succeeded) ≡ true
unfolding StepStatus-discrete
running_unfinished = refl

begun_run-HasBegun :
    (mode : BeginMode) (now i : ℕ) (step : RunStep) (run : TestRun)
    → CanBegin mode i step run
    → HasBegun i run (begun_run mode now step run)
unfolding begun_run begun_step restarted clear_error put_step
begun_run-HasBegun mode now i step run h = record {
  begun = begun_step mode now step;
  run_runs = refl;
  is_first =
      rw
        (put_step_again (begun_step mode now step)
          (record (counted mode now step) { status = StepStatus.running }) run.steps refl)
        (current-put_step (begun_step mode now step) step run.steps h.is_first (sym named)
          running_unfinished);
  is_asked = named ∙ h.is_asked;
  step_runs = refl;
  no_progress = refl;
  others_kept = λ j n.
      rw
        (put_step_again (begun_step mode now step)
          (record (counted mode now step) { status = StepStatus.running }) run.steps refl)
        (other-put_step (begun_step mode now step) j run.steps (λ e. n (e ∙ (named ∙ h.is_asked))));
}
  where
    named : (begun_step mode now step).id ≡ step.id
    named = (counted-Keeps mode now step).1

-- Either of the two results of `begin_workflow_step`.
pub data BeginOutcome (mode : BeginMode) (i : ℕ) (s : Session) (r : Result RunStep × Session)
    : Type 0 where
  began :
      (current begun : RunStep)
      → CanBegin mode i current s.run
      → r.0 ≡ ok begun
      → HasBegun i s.run r.1.run
      → BeginOutcome mode i s r
  refused :
      (code : Code)
      → ((current : RunStep) → CanBegin mode i current s.run → ⊥)
      → r ≡ (raised (workflow_error code 409), s)
      → BeginOutcome mode i s r

begin_checked-BeginOutcome :
    (mode : BeginMode) (i : ℕ) (o : Option RunStep) (s : Session)
    → current_step s.run ≡ o
    → is_set s.run.workflow_version_id ≡ true
    → s.run.status ≡ expected_status mode
    → BeginOutcome mode i s (begin_checked mode i o s)
unfolding begin_checked
begin_checked-BeginOutcome mode i none s e w st =
    refused invalid_workflow_step (λ c h. absurd (nothing c h)) refl
  where
    nothing : (c : RunStep) → CanBegin mode i c s.run → ⊥
    nothing c h = ground (arith, e, h.is_first)
begin_checked-BeginOutcome mode i (some c) s e w st = elim (Bool-cases (has_step_id i c)) [
  | inr b ↦ rw b (refused invalid_workflow_step (λ d h. is_it d h b) refl)
  | inl b ↦ elim (Bool-cases (step_is (expected_step_status mode) c)) [
    | inr k ↦ rw (b, k) (refused invalid_transition (λ d h. waits d h k) refl)
    | inl k ↦
        rw (b, k)
          (began c (begun_step mode s.now c) (can b k)
            (start_current_lem mode c s st (can b k).step_waits).0
            (rw (start_current_lem mode c s st (can b k).step_waits).1
              (begun_run-HasBegun mode s.now i c s.run (can b k))))
  ]
]
  where
    can :
        has_step_id i c ≡ true
        → step_is (expected_step_status mode) c ≡ true
        → CanBegin mode i c s.run
    can b k = record {
      has_workflow = w;
      run_waits = st;
      is_first = e;
      is_asked = ground arith;
      step_waits = ground arith;
    }

    is_it : (d : RunStep) → CanBegin mode i d s.run → has_step_id i c ≡ false → ⊥
    is_it d h b = ground arith

    waits :
        (d : RunStep) → CanBegin mode i d s.run → step_is (expected_step_status mode) c ≡ false → ⊥
    waits d h k = ground arith

-- For a start, a retry and a new analysis alike: `begin_workflow_step` either begins the step, and
-- then its guards held, or its guards did not hold, and it raises a conflict (409) and changes nothing.
-- A step that begins is the first unfinished one; it and the run are running, the step from no
-- progress, and every other step is as it was.
pub begin_workflow_step-BeginOutcome :
    (mode : BeginMode) (i : ℕ) (s : Session) → BeginOutcome mode i s (begin_workflow_step i mode s)
unfolding begin_workflow_step
begin_workflow_step-BeginOutcome mode i s = elim (Bool-cases (is_set s.run.workflow_version_id)) [
  | inr b ↦ rw b (refused invalid_transition (λ c h. no_workflow c h b) refl)
  | inl b ↦ elim (Bool-cases (run_is (expected_status mode) s.run)) [
    | inr k ↦ rw (b, k) (refused invalid_transition (λ c h. not_waiting c h k) refl)
    | inl k ↦
        rw (b, k) (begin_checked-BeginOutcome mode i (current_step s.run) s refl b (ground arith))
  ]
]
  where
    no_workflow :
        (c : RunStep) → CanBegin mode i c s.run → is_set s.run.workflow_version_id ≡ false → ⊥
    no_workflow c h b = ground arith

    not_waiting :
        (c : RunStep) → CanBegin mode i c s.run → run_is (expected_status mode) s.run ≡ false → ⊥
    not_waiting c h k = ground arith
