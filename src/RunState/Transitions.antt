-- ===== src/RunState/Transitions.antt =====
-- `transition_run` and `transition_step` of backend/app/services/run_state.py: what they do.
use open_slt.Prelude.{
  true, ◌||◌, ◌≡◌, ◌⊎◌, inl, inr, refl, List, [], ◌∷◌, arith, same, if◌then◌else◌, Bool-cases, ◌+◌,
  ◌++◌, false,
}
use open_slt.Status.{RunStatus, RunStatus-discrete, StepStatus, StepStatus-discrete}
use open_slt.Errors.{ok, raised, invalid_run_transition, invalid_step_transition}
use open_slt.Domain.{TestRun, RunStep}
use open_slt.RunState.{
  Origin, run_transitions, step_transitions, record_transition, transition_run, transition_step,
}
use open_slt.RunState.Table.{run_edge, step_edge, run-transition, step-transition}

module _ (o : Origin) (run : TestRun) where
  -- the outcome, by the table alone
  pub transition_run_lem :
      (t : RunStatus)
      → transition_run o run t ≡ (
          if same RunStatus-discrete run.status t || run_edge run.status t
          then ok (record_transition o run t)
          else raised (invalid_run_transition run.status t))
  unfolding transition_run
  transition_run_lem t =
      rw (run-transition invalid_run_transition run.status t)
        (elim (Bool-cases (same RunStatus-discrete run.status t || run_edge run.status t)) [
          | inl h ↦ rw h refl
          | inr h ↦ rw h refl
        ])

pub transition_step_lem :
    (step : RunStep) (t : StepStatus)
    → transition_step step t ≡ (
        if same StepStatus-discrete step.status t || step_edge step.status t
        then ok (record step { status = t })
        else raised (invalid_step_transition step.status t))
unfolding transition_step
transition_step_lem step t =
    rw (step-transition invalid_step_transition step.status t)
      (elim (Bool-cases (same StepStatus-discrete step.status t || step_edge step.status t)) [
        | inl h ↦ rw h refl
        | inr h ↦ rw h refl
      ])

-- A service's requests, one after another: one that raises changes nothing.
unfoldable pub attempt : TestRun → Origin × RunStatus → TestRun
attempt run (o, t) = elim (transition_run o run t) [ ok r ↦ r | raised _ ↦ run ]

unfoldable pub attempts : TestRun → List (Origin × RunStatus) → TestRun
unfolding attempt
attempts run [] = run
attempts run (q ∷ qs) = attempts (attempt run q) qs

pub attempt_cases :
    (run : TestRun) (q : Origin × RunStatus)
    → (attempt run q ≡ run)
      ⊎ ((attempt run q ≡ record_transition q.0 run q.1) × (run_edge run.status q.1 ≡ true))
unfolding attempt record_transition
attempt_cases run q = ground (arith, transition_run_lem q.0 run q.1)

no_self_edge : (s : RunStatus) → run_edge s s ≡ false
unfolding run_transitions RunStatus-discrete
no_self_edge RunStatus.draft = refl
no_self_edge _ = refl

no_self_step_edge : (s : StepStatus) → step_edge s s ≡ false
unfolding step_transitions StepStatus-discrete
no_self_step_edge StepStatus.pending = refl
no_self_step_edge _ = refl

-- The run after a transition that changes its status.
abbrev pub advanced : Origin → TestRun → RunStatus → TestRun
advanced o run target = record run {
  status = target;
  status_version = run.status_version + 1;
  status_transitions =
      run.status_transitions
      ++ record {
        from_status = run.status;
        to_status = target;
        status_version = run.status_version + 1;
        source = o.source;
        actor_id = o.actor_id;
        reason = o.reason;
      }
        ∷ [];
}

pub transition_run_edge :
    (o : Origin) (run : TestRun) (t : RunStatus)
    → run_edge run.status t ≡ true
    → transition_run o run t ≡ ok (advanced o run t)
unfolding record_transition
transition_run_edge o run t h = ground (arith, transition_run_lem o run t, no_self_edge t)

pub transition_step_edge :
    (step : RunStep) (t : StepStatus)
    → step_edge step.status t ≡ true
    → transition_step step t ≡ ok (record step { status = t })
transition_step_edge step t h = ground (arith, transition_step_lem step t)
