-- ===== src/Workflow/Legacy/Retrying.antt =====
-- A run without a workflow that failed after its first phase, and is continued
-- (`continue_after_wiring` of backend/app/services/orchestration.py).
use open_slt.Prelude.{
  ℕ, ◌⊎◌, ◌≡◌, refl, true, false, not, ◌||◌, none, List, [], ◌∷◌, find, All, arith, same,
  Bool-cases, inl, inr, if-both, All-modify_first,
}
use open_slt.Status.{
  StepStatus, RunStatus-discrete, StepStatus-discrete, awaiting_wiring, awaiting_review,
  execution_failed,
}
use open_slt.Errors.{
  Error, workflow_error, http_exception, invalid_run_transition, invalid_step_transition,
  value_error, stop_iteration, cancelled_error, other_exception, Result, ok, raised,
}
use open_slt.Domain.{StepCode, StepCode-discrete, RunStep, TestRun}
use open_slt.RunState.{by_service, run_transitions}
use open_slt.RunState.Table.{step_edge}
use open_slt.RunState.Transitions.{transition_step_lem}
use open_slt.Session.{
  Session, step_is, run_is, set_step_status, put_step, has_step_id, write_step, append_log,
  release_run_locks,
}
use open_slt.Session.Effects.{set_status_edge}
use open_slt.Session.Ends.{Ends, goes_on}
use open_slt.Workflow.Legacy.{
  LegacyServices, has_code, step_of_code, phases, all_phases, confirm_step, confirmed_wiring,
  await_manual_review, continue_body, give_up, stop_running_step, given_up_run, continued,
  continue_after_wiring,
}
use open_slt.Workflow.Legacy.Blocking.{
  IsLeft, IsStuck, IsFound, IsNothing, step_of_code-Ends, forbidden-Ends, phases-Ends,
}

-- A step that is written is not running, and it has succeeded if it validates the capture.
put_step-IsStuck :
    (step : RunStep) (run : TestRun) → IsLeft step → IsStuck run → IsStuck (put_step step run)
unfolding put_step
put_step-IsStuck step run k h =
    (h.0, All-modify_first IsLeft (has_step_id step.id) (λ _. step) (λ _ _. k) run.steps h.1)

set_step_status-Ends :
    (step : RunStep) (t : StepStatus) (s : Session)
    → IsLeft (record step { status = t })
    → IsStuck s.run
    → Ends
        (λ (done : RunStep) run. (done ≡ record step { status = t }) × IsStuck run)
        IsStuck
        (set_step_status step t s)
unfolding set_step_status
set_step_status-Ends step t s k h =
    elim (Bool-cases (same StepStatus-discrete step.status t || step_edge step.status t)) [
      | inl b ↦
          rw (transition_step_lem step t, b)
            (refl, put_step-IsStuck (record step { status = t }) s.run k h)
      | inr b ↦ rw (transition_step_lem step t, b) h
    ]

confirmed-IsLeft :
    (wiring done : RunStep) (now : ℕ)
    → done ≡ record wiring { status = StepStatus.succeeded }
    → IsLeft (confirmed_wiring now done)
unfolding confirmed_wiring StepStatus-discrete
confirmed-IsLeft wiring done now e = rw e (refl, ground arith)

reviews :
    (step : RunStep)
    → has_code StepCode.manual_review step ≡ true
    → has_code StepCode.capture_validation step ≡ false
reviews step e = ground (arith, e)

confirm_step-Ends :
    (s : Session) → IsStuck s.run → Ends (λ (_ : Unit {0}). IsStuck) IsStuck (confirm_step s)
unfolding confirm_step confirmed_wiring write_step append_log
confirm_step-Ends s h =
    goes_on (IsFound StepCode.wiring_confirmation) (λ (_ : Unit {0}). IsStuck) IsStuck _
      (step_of_code StepCode.wiring_confirmation s)
      (step_of_code-Ends StepCode.wiring_confirmation s h)
      (λ wiring s' found.
        goes_on
          (λ (done : RunStep) run.
            (done ≡ record wiring { status = StepStatus.succeeded }) × IsStuck run)
          (λ (_ : Unit {0}). IsStuck) IsStuck _ (set_step_status wiring StepStatus.succeeded s')
          (set_step_status-Ends wiring StepStatus.succeeded s' (ground arith) found.2)
          (λ done s'' k. put_step-IsStuck _ s''.run (confirmed-IsLeft wiring done s''.now k.0) k.1))

await_manual_review-Ends :
    (s : Session) → IsStuck s.run → Ends (IsNothing {A = Unit {0}}) IsStuck (await_manual_review s)
unfolding await_manual_review RunStatus-discrete run_transitions StepStatus-discrete
await_manual_review-Ends s h =
    goes_on (IsFound StepCode.manual_review) (IsNothing {A = Unit {0}}) IsStuck _
      (step_of_code StepCode.manual_review s) (step_of_code-Ends StepCode.manual_review s h)
      (λ review s' found.
        goes_on
          (λ (done : RunStep) run.
            (done ≡ record review { status = StepStatus.waiting }) × IsStuck run)
          (IsNothing {A = Unit {0}}) IsStuck _ (set_step_status review StepStatus.waiting s')
          (set_step_status-Ends review StepStatus.waiting s'
            (refl, ground (arith, reviews review found.1)) found.2)
          (λ done s'' k. forbidden-Ends (IsNothing {A = Unit {0}}) awaiting_review _ s'' refl k.1))

continue_body-Ends :
    (services : LegacyServices) (s : Session)
    → IsStuck s.run
    → Ends (IsNothing {A = Unit {0}}) IsStuck (continue_body services s)
unfolding continue_body RunStatus-discrete StepCode-discrete run_transitions
continue_body-Ends services s h =
    goes_on (λ (_ : Unit {0}). IsStuck) (IsNothing {A = Unit {0}}) IsStuck _ (confirm_step s)
      (confirm_step-Ends s h)
      (λ _ s' k.
        goes_on (λ (_ : Unit {0}). IsStuck) (IsNothing {A = Unit {0}}) IsStuck _
          (phases services all_phases s')
          (phases-Ends services all_phases s' (refl, (refl, (refl, (refl, (refl, (refl, tt)))))) k)
          (λ _ s'' j. await_manual_review-Ends s'' j))

-- It has returned, and the run has failed or still waits for the wiring.
abbrev pub HasStayed : Result (Unit {0}) × Session → Type 0
HasStayed r =
    (r.0 ≡ ok tt) × ((r.1.run.status ≡ execution_failed) ⊎ (r.1.run.status ≡ awaiting_wiring))

none_running :
    (steps : List RunStep) → All IsLeft steps → find (step_is StepStatus.running) steps ≡ none
none_running [] h = refl
none_running (x ∷ xs) h = rw (h.0.0) (none_running xs h.1)

give_up-HasStayed :
    (e : Error) (s : Session)
    → IsStuck s.run
    → HasStayed (give_up e (find (step_is StepStatus.running) s.run.steps) s)
unfolding give_up stop_running_step given_up_run append_log release_run_locks RunStatus-discrete
    run_transitions
give_up-HasStayed e s h =
    rw (none_running s.run.steps h.1, set_status_edge by_service execution_failed s (rw (h.0) refl))
      (refl, inl refl)

continued-HasStayed :
    (r : Result (Unit {0}) × Session)
    → Ends (IsNothing {A = Unit {0}}) IsStuck r
    → HasStayed (continued r)
unfolding continued
continued-HasStayed (ok _, s) h = absurd h
continued-HasStayed (raised cancelled_error, s) h = (refl, inr h.0)
continued-HasStayed (raised (workflow_error c n), s) h = give_up-HasStayed (workflow_error c n) s h
continued-HasStayed (raised (http_exception c n), s) h = give_up-HasStayed (http_exception c n) s h
continued-HasStayed (raised (invalid_run_transition a b), s) h =
    give_up-HasStayed (invalid_run_transition a b) s h
continued-HasStayed (raised (invalid_step_transition a b), s) h =
    give_up-HasStayed (invalid_step_transition a b) s h
continued-HasStayed (raised value_error, s) h = give_up-HasStayed value_error s h
continued-HasStayed (raised stop_iteration, s) h = give_up-HasStayed stop_iteration s h
continued-HasStayed (raised (other_exception n), s) h = give_up-HasStayed (other_exception n) s h

-- A run that waits for the wiring, of whose steps none is running, and whose capture is validated
-- already, as that of a run that failed in a later phase and is tried again is: `continue_after_wiring`
-- returns, and the run is `execution_failed` or still `awaiting_wiring`. It never comes to its review,
-- whichever phases have succeeded.
pub continue_after_wiring-HasStayed :
    (services : LegacyServices) (s : Session)
    → s.run.status ≡ awaiting_wiring
    → All IsLeft s.run.steps
    → HasStayed (continue_after_wiring services s)
unfolding continue_after_wiring
continue_after_wiring-HasStayed services s h k =
    if-both HasStayed (not (run_is awaiting_wiring s.run)) (refl, inr h)
      (continued-HasStayed (continue_body services s) (continue_body-Ends services s (h, k)))
