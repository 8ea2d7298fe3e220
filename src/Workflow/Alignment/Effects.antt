-- ===== src/Workflow/Alignment/Effects.antt =====
-- What the actions on a session do to a run that stands at one of its steps.
use open_slt.Prelude.{◌||◌, arith, if-cases, inl, inr, same, false, ℕ, true, ◌≡◌, refl, List}
use open_slt.Status.{RunStatus-discrete, RunStatus, StepStatus}
use open_slt.Domain.{RunStep, TestRun}
use open_slt.RunState.{record_transition, Origin, record_transition}
use open_slt.RunState.Table.{run_edge, step_edge}
use open_slt.Session.{Session, set_status, set_step_status, write_step, put_step}
use open_slt.Session.Effects.{set_status_cases, set_status_edge, set_step_status_edge}
use open_slt.Session.Ends.{Ends}
use open_slt.Workflow.Alignment.{Stands}
use open_slt.Workflow.Alignment.Shape.{AtStep, AtStep-put, step_ids-put}

pub put_step-Stands :
    (r : RunStatus) (i : ℕ) (u t : StepStatus) (a : RunStep) (run : TestRun)
    → Stands r (AtStep i u) run
    → a.id ≡ i
    → a.status ≡ t
    → Stands r (AtStep i t) (put_step a run)
unfolding put_step
put_step-Stands r i u t a run h d e =
    ((h.0.0, rw (step_ids-put a run.steps) h.0.1), (h.1.0, AtStep-put i u t a run.steps h.1.1 d e))

record_transition-Stands :
    (o : Origin) (r t : RunStatus) (P : List RunStep → Type 0) (run : TestRun)
    → Stands r P run
    → Stands t P (record_transition o run t)
unfolding record_transition
record_transition-Stands o r t P run h =
    if-cases (Stands t P) (same RunStatus-discrete run.status t) (λ e. (h.0, (is_there e, h.1.1)))
      (λ _. (h.0, (refl, h.1.1)))
  where
    is_there : same RunStatus-discrete run.status t ≡ true → run.status ≡ t
    is_there e = ground arith

module _ (E : TestRun → Type 0) where
  pub set_status-Ends :
      (o : Origin) (r t : RunStatus) (P : List RunStep → Type 0) (s : Session)
      → Stands r P s.run
      → run_edge r t ≡ true
      → Ends (λ _. Stands t P) E (set_status o t s)
  set_status-Ends o r t P s h e = rw (set_status_edge o t s (rw h.1.0 e)) (h.0, (refl, h.1.1))

  -- whether the table allows it or not: an exception leaves the run as it was
  pub set_status-stays :
      (o : Origin) (r t : RunStatus) (P : List RunStep → Type 0) (s : Session)
      → Stands r P s.run
      → E s.run
      → Ends (λ _. Stands t P) E (set_status o t s)
  set_status-stays o r t P s h e = elim (set_status_cases o t s) [
    | inl f ↦ rw f.1 e
    | inr f ↦ rw f (record_transition-Stands o r t P s.run h)
  ]

  -- to the status that the run has, or along an edge of the table
  pub set_status-allowed :
      (o : Origin) (r t : RunStatus) (P : List RunStep → Type 0) (s : Session)
      → Stands r P s.run
      → (same RunStatus-discrete r t || run_edge r t) ≡ true
      → Ends (λ _. Stands t P) E (set_status o t s)
  set_status-allowed o r t P s h e = elim (set_status_cases o t s) [
    | inl f ↦ absurd (refused f.0)
    | inr f ↦ rw f (record_transition-Stands o r t P s.run h)
  ]
    where
      refused : (same RunStatus-discrete s.run.status t || run_edge s.run.status t) ≡ false → ⊥
      refused f = ground (arith, f, e, h.1.0)

  pub set_step_status-Ends :
      (r : RunStatus) (i : ℕ) (u t : StepStatus) (step : RunStep) (s : Session)
      → Stands r (AtStep i u) s.run
      → step.id ≡ i
      → step.status ≡ u
      → step_edge u t ≡ true
      → Ends
          (λ a run. ((a.id ≡ i) × (a.status ≡ t)) × Stands r (AtStep i t) run)
          E
          (set_step_status step t s)
  set_step_status-Ends r i u t step s h d k e =
      rw (set_step_status_edge step t s (rw k e))
        ((d, refl), put_step-Stands r i u t (record step { status = t }) s.run h d refl)

  pub write_step-Ends :
      (r : RunStatus) (i : ℕ) (u t : StepStatus) (a : RunStep) (s : Session)
      → Stands r (AtStep i u) s.run
      → a.id ≡ i
      → a.status ≡ t
      → Ends (λ _. Stands r (AtStep i t)) E (write_step a s)
  unfolding write_step
  write_step-Ends r i u t a s h d e = put_step-Stands r i u t a s.run h d e
