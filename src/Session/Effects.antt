-- ===== src/Session/Effects.antt =====
-- What the status changes do to a session where the transition tables allow them
-- (`transition_run` and `transition_step` of backend/app/services/run_state.py).
use open_slt.Prelude.{true, false, ◌⊎◌, inl, inr, ◌||◌, same, Bool-cases, ◌≡◌, refl}
use open_slt.Status.{RunStatus-discrete, RunStatus, StepStatus}
use open_slt.Errors.{raised, invalid_run_transition, ok}
use open_slt.Domain.{RunStep}
use open_slt.RunState.{Origin, record_transition}
use open_slt.RunState.Table.{run_edge, step_edge}
use open_slt.RunState.Transitions.{
  transition_run_lem, advanced, transition_run_edge, transition_step_edge,
}
use open_slt.Session.{Session, set_status, set_step_status, put_step}

pub set_status_edge :
    (o : Origin) (t : RunStatus) (s : Session)
    → run_edge s.run.status t ≡ true
    → set_status o t s ≡ (ok tt, record s { run = advanced o s.run t })
unfolding set_status
set_status_edge o t s h = rw (transition_run_edge o s.run t h) refl

pub set_step_status_edge :
    (step : RunStep) (t : StepStatus) (s : Session)
    → step_edge step.status t ≡ true
    → set_step_status step t s ≡ (
      ok (record step { status = t }),
      record s { run = put_step (record step { status = t }) s.run },
    )
unfolding set_step_status
set_step_status_edge step t s h = rw (transition_step_edge step t h) refl

-- either the table refuses and nothing changes, or the transition is recorded
pub set_status_cases :
    (o : Origin) (t : RunStatus) (s : Session)
    → (((same RunStatus-discrete s.run.status t || run_edge s.run.status t) ≡ false)
        × (set_status o t s ≡ (raised (invalid_run_transition s.run.status t), s)))
      ⊎ (set_status o t s ≡ (ok tt, record s { run = record_transition o s.run t }))
unfolding set_status
set_status_cases o t s =
    elim (Bool-cases (same RunStatus-discrete s.run.status t || run_edge s.run.status t)) [
      | inl h ↦ inr (rw (transition_run_lem o s.run t, h) refl)
      | inr h ↦ inl (h, rw (transition_run_lem o s.run t, h) refl)
    ]
