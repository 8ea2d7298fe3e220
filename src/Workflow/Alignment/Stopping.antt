-- ===== src/Workflow/Alignment/Stopping.antt =====
-- `cancel_run` and `expire_timed_out_runs` of backend/app/services/orchestration.py and the statuses of
-- the steps.
use open_slt.Prelude.{
  ℕ, String, Option, some, true, not, ◌≡◌, refl, ◌∙◌, ap, arith, List, [], ◌∷◌, map, mem,
  Bool-cases, inl, inr,
}
use open_slt.Status.{StepStatus, StepStatus-discrete, cancelled, timed_out}
use open_slt.Domain.{RunStep}
use open_slt.RunState.Table.{edge-cancelled, edge-timed_out}
use open_slt.Session.{Session, append_log, publish_status, release_run_locks}
use open_slt.Session.Effects.{set_status_edge}
use open_slt.Session.Ends.{Ends}
use open_slt.Workflow.{stamp_finished}
use open_slt.Workflow.Control.{
  is_over, stored_steps, cancelled_statuses, cancel_steps, cancel_origin, cancel_run,
  expired_statuses, kept_stamp, timed_out_run, expire_steps, timeout_origin, expire_run,
  is_timed_out,
}
use open_slt.Workflow.Control.Stopping.{stopped, stop_steps_lem, cancelled_edge, expired_edge}
use open_slt.Workflow.Alignment.{Aligned, IsAligned, NoneRunning, step_ids}

step_ids-stopped :
    (statuses : List StepStatus) (stamp : RunStep → Option ℕ) (steps : List RunStep)
    → step_ids (map (stopped statuses stamp) steps) ≡ step_ids steps
unfolding stopped
step_ids-stopped statuses stamp [] = refl
step_ids-stopped statuses stamp (x ∷ xs) = ground (arith, step_ids-stopped statuses stamp xs)

stopped-NoneRunning :
    (statuses : List StepStatus) (stamp : RunStep → Option ℕ) (steps : List RunStep)
    → mem StepStatus-discrete StepStatus.running statuses ≡ true
    → NoneRunning (map (stopped statuses stamp) steps)
unfolding stopped
stopped-NoneRunning statuses stamp [] h = refl
stopped-NoneRunning statuses stamp (x ∷ xs) h =
    ground (arith, stopped-NoneRunning statuses stamp xs h)

cancels_running : mem StepStatus-discrete StepStatus.running cancelled_statuses ≡ true
unfolding StepStatus-discrete
cancels_running = refl

expires_running : mem StepStatus-discrete StepStatus.running expired_statuses ≡ true
unfolding StepStatus-discrete
expires_running = refl

-- Cancelling keeps the run aligned.
pub cancel_run-IsAligned :
    (reason : String) (actor : Option ℕ) (s : Session)
    → IsAligned s.run
    → Ends Aligned IsAligned (cancel_run reason actor s)
unfolding cancel_run cancel_steps stamp_finished stored_steps append_log publish_status
    release_run_locks
cancel_run-IsAligned reason actor s a = elim (Bool-cases (is_over s.run)) [
  | inl h ↦ rw h a
  | inr h ↦
      rw
        (
          h,
          set_status_edge (cancel_origin reason actor) cancelled s
              (edge-cancelled s.run.status ∙ ap not h),
          stop_steps_lem cancelled_statuses (λ _. some s.now) s.run.steps cancelled_edge,
        )
        (
          (a.0.0, rw (step_ids-stopped cancelled_statuses (λ _. some s.now) s.run.steps) a.0.1),
          inl (
              stopped-NoneRunning cancelled_statuses (λ _. some s.now) s.run.steps cancels_running),
        )
]

-- A run that has passed its deadline stays aligned when it expires.
pub expire_run-IsAligned :
    (s : Session)
    → is_timed_out s.now s.run ≡ true
    → IsAligned s.run
    → Ends Aligned IsAligned (expire_run s)
unfolding expire_run expire_steps timed_out_run stored_steps append_log publish_status
    release_run_locks is_timed_out
expire_run-IsAligned s h a =
    rw
      (
        set_status_edge timeout_origin timed_out s (edge-timed_out s.run.status ∙ ground arith),
        stop_steps_lem expired_statuses (kept_stamp s.now) s.run.steps expired_edge,
      )
      (
        (a.0.0, rw (step_ids-stopped expired_statuses (kept_stamp s.now) s.run.steps) a.0.1),
        inl (stopped-NoneRunning expired_statuses (kept_stamp s.now) s.run.steps expires_running),
      )
