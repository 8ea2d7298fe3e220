-- ===== src/Workflow/Control/Stopping.antt =====
-- What cancelling a run and letting it time out leave behind (`cancel_run` and
-- `expire_timed_out_runs` of backend/app/services/orchestration.py).
use open_slt.Prelude.{
  ℕ, String, true, false, not, ◌≡◌, refl, ◌∙◌, Option, some, Bool-cases, inl, inr, List, [], ◌∷◌,
  map, mem, arith, if◌then◌else◌, All, ap,
}
use open_slt.Status.{RunStatus, StepStatus, StepStatus-discrete, cancelled, timed_out}
use open_slt.Errors.{ok}
use open_slt.Domain.{RunStep}
use open_slt.RunState.{step_transitions}
use open_slt.RunState.Table.{step_edge, edge-cancelled, edge-timed_out}
use open_slt.RunState.Transitions.{transition_step_edge}
use open_slt.Locks.{release_locks}
use open_slt.Locks.Holders.{holds, holds-release}
use open_slt.Session.{Session, append_log, publish_status, release_run_locks}
use open_slt.Session.Effects.{set_status_edge}
use open_slt.Workflow.{stamp_finished}
use open_slt.Workflow.Control.{
  is_over, stop_steps, prepend, prepend_result, stored_steps, cancelled_statuses, cancel_steps,
  cancel_origin, cancel_run, expired_statuses, kept_stamp, timed_out_run, expire_steps,
  timeout_origin, expire_run, is_timed_out,
}

-- a step once it has been stopped
unfoldable pub stopped : List StepStatus → (RunStep → Option ℕ) → RunStep → RunStep
stopped statuses stamp step =
    if mem StepStatus-discrete step.status statuses
    then (record step {
      status = StepStatus.cancelled;
      finished_at = stamp (record step { status = StepStatus.cancelled });
    })
    else step

pub stop_steps_lem :
    (statuses : List StepStatus) (stamp : RunStep → Option ℕ) (steps : List RunStep)
    → ((s : StepStatus)
        → mem StepStatus-discrete s statuses ≡ true
        → step_edge s StepStatus.cancelled ≡ true)
    → stop_steps statuses stamp steps ≡ ok (map (stopped statuses stamp) steps)
unfolding stop_steps prepend prepend_result stopped
stop_steps_lem statuses stamp [] h = refl
stop_steps_lem statuses stamp (step ∷ steps) h =
    elim (Bool-cases (mem StepStatus-discrete step.status statuses)) [
      | inl b ↦
          rw
            (
              b,
              transition_step_edge step StepStatus.cancelled (h step.status b),
              stop_steps_lem statuses stamp steps h,
            )
            refl
      | inr b ↦ rw (b, stop_steps_lem statuses stamp steps h) refl
    ]

pub cancelled_edge :
    (s : StepStatus)
    → mem StepStatus-discrete s cancelled_statuses ≡ true
    → step_edge s StepStatus.cancelled ≡ true
unfolding step_transitions StepStatus-discrete
cancelled_edge StepStatus.running h = refl
cancelled_edge StepStatus.waiting h = refl
cancelled_edge StepStatus.pending h = refl
cancelled_edge StepStatus.failed h = refl
cancelled_edge _ h = cc

pub expired_edge :
    (s : StepStatus)
    → mem StepStatus-discrete s expired_statuses ≡ true
    → step_edge s StepStatus.cancelled ≡ true
unfolding step_transitions StepStatus-discrete
expired_edge StepStatus.running h = refl
expired_edge StepStatus.waiting h = refl
expired_edge StepStatus.pending h = refl
expired_edge StepStatus.failed h = refl
expired_edge _ h = cc

-- The run has stopped in that status: each of its steps has a status that `left` allows, and the
-- run holds no resource.
pub record IsStopped (t : RunStatus) (left : StepStatus → Type 0) (s : Session) : Type 0 where
  in_status : s.run.status ≡ t
  steps_left : All (λ step. left step.status) s.run.steps
  unlocked : (at r : ℕ) → holds at r s.run.id s.locks ≡ false

-- Neither running nor waiting.
abbrev pub IsIdle : StepStatus → Type 0
IsIdle s = mem StepStatus-discrete s cancelled_statuses ≡ false

-- Succeeded or cancelled.
abbrev pub IsOver : StepStatus → Type 0
IsOver s = mem StepStatus-discrete s expired_statuses ≡ false

stopped-IsIdle :
    (stamp : RunStep → Option ℕ) (step : RunStep)
    → IsIdle (stopped cancelled_statuses stamp step).status
unfolding stopped
stopped-IsIdle stamp step = ground arith

stopped-IsOver :
    (stamp : RunStep → Option ℕ) (step : RunStep)
    → IsOver (stopped expired_statuses stamp step).status
unfolding stopped
stopped-IsOver stamp step = ground arith

All-stopped :
    (P : StepStatus → Type 0) (statuses : List StepStatus) (stamp : RunStep → Option ℕ)
    (steps : List RunStep)
    → ((step : RunStep) → P (stopped statuses stamp step).status)
    → All (λ step. P step.status) (map (stopped statuses stamp) steps)
All-stopped P statuses stamp [] h = tt
All-stopped P statuses stamp (step ∷ steps) h = (h step, All-stopped P statuses stamp steps h)

unlocked_run :
    (t p : ℕ) (reason : String) (s : Session) (at r : ℕ)
    → holds at r p (release_locks t p reason s.locks).1 ≡ false
unfolding release_locks
unlocked_run t p reason s at r = holds-release at t p reason s.locks r p ∙ ground arith

-- Cancelling a run that is not over never fails: the run is `cancelled`, none of its steps is left
-- running or waiting, and it holds no resource at any instant.
pub cancel_run-IsStopped :
    (reason : String) (actor : Option ℕ) (s : Session)
    → is_over s.run ≡ false
    → ((cancel_run reason actor s).0 ≡ ok tt)
      × IsStopped cancelled IsIdle (cancel_run reason actor s).1
unfolding cancel_run cancel_steps stamp_finished stored_steps append_log publish_status
    release_run_locks
cancel_run-IsStopped reason actor s h =
    rw
      (
        h,
        set_status_edge (cancel_origin reason actor) cancelled s
            (edge-cancelled s.run.status ∙ ap not h),
        stop_steps_lem cancelled_statuses (λ _. some s.now) s.run.steps cancelled_edge,
      )
      (
        refl,
        record {
          in_status = refl;
          steps_left =
              All-stopped IsIdle cancelled_statuses (λ _. some s.now) s.run.steps
                (stopped-IsIdle (λ _. some s.now));
          unlocked = unlocked_run s.now s.run.id reason s;
        },
      )

-- Expiring a run that has passed its deadline never fails: the run is `timed_out`, each of its steps
-- has succeeded or is cancelled, and it holds no resource at any instant.
pub expire_run-IsStopped :
    (s : Session)
    → is_timed_out s.now s.run ≡ true
    → ((expire_run s).0 ≡ ok tt) × IsStopped timed_out IsOver (expire_run s).1
unfolding expire_run expire_steps timed_out_run stored_steps append_log publish_status
    release_run_locks is_timed_out
expire_run-IsStopped s h =
    rw
      (
        set_status_edge timeout_origin timed_out s (edge-timed_out s.run.status ∙ ground arith),
        stop_steps_lem expired_statuses (kept_stamp s.now) s.run.steps expired_edge,
      )
      (
        refl,
        record {
          in_status = refl;
          steps_left =
              All-stopped IsOver expired_statuses (kept_stamp s.now) s.run.steps
                (stopped-IsOver (kept_stamp s.now));
          unlocked = unlocked_run s.now s.run.id "timed_out" s;
        },
      )
