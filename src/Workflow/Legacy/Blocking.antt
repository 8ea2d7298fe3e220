-- ===== src/Workflow/Legacy/Blocking.antt =====
-- The phases of `continue_after_wiring` (backend/app/services/orchestration.py) where the run cannot
-- leave the status in which it waits for the wiring.
use open_slt.Prelude.{
  ◌≡◌, refl, Bool, true, false, not, ◌&&◌, ◌||◌, Option, none, some, List, [], ◌∷◌, find, All,
  arith, same, Bool-cases, inl, inr, if-both, subst, find-some,
}
use open_slt.Status.{RunStatus, StepStatus, RunStatus-discrete, awaiting_wiring}
use open_slt.Errors.{invalid_run_transition, Result, ok, raised, Action, ◌>>=◌}
use open_slt.Domain.{StepCode, StepCode-discrete, RunStep, TestRun}
use open_slt.RunState.{by_service}
use open_slt.RunState.Table.{run_edge}
use open_slt.RunState.Transitions.{transition_run_lem}
use open_slt.Session.{Session, step_is, set_status}
use open_slt.Session.Ends.{Ends, goes_on}
use open_slt.Workflow.Legacy.{
  LegacyServices, has_code, step_found, step_of_code, phase, after_phase, phases, perform_step,
}

-- No step is running, and what was captured has been validated.
abbrev pub IsLeft : RunStep → Type 0
IsLeft step =
    (step_is StepStatus.running step ≡ false)
    × ((has_code StepCode.capture_validation step && not (step_is StepStatus.succeeded step))
        ≡ false)

abbrev pub IsStuck : TestRun → Type 0
IsStuck run = (run.status ≡ awaiting_wiring) × All IsLeft run.steps

find-All :
    (q : RunStep → Bool) (steps : List RunStep)
    → All IsLeft steps
    → (step : RunStep) → find q steps ≡ some step
    → IsLeft step
find-All q [] h step e = ground arith
find-All q (x ∷ xs) h step e = elim (Bool-cases (q x)) [
  | inl b ↦ subst IsLeft {x = x} {y = step} (ground (arith, b, e)) h.0
  | inr b ↦ find-All q xs h.1 step (ground (arith, b, e))
]

abbrev pub IsFound : StepCode → RunStep → TestRun → Type 0
IsFound code step run = IsLeft step × (has_code code step ≡ true) × IsStuck run

step_found-Ends :
    (code : StepCode) (s : Session) (found : Option RunStep)
    → IsStuck s.run
    → ((step : RunStep) → found ≡ some step → IsFound code step s.run)
    → Ends (IsFound code) IsStuck (step_found found s)
unfolding step_found
step_found-Ends code s none h k = h
step_found-Ends code s (some step) h k = k step refl

pub step_of_code-Ends :
    (code : StepCode) (s : Session)
    → IsStuck s.run
    → Ends (IsFound code) IsStuck (step_of_code code s)
unfolding step_of_code
step_of_code-Ends code s h = step_found-Ends code s (find (has_code code) s.run.steps) h (λ step e.
    (
      find-All (has_code code) s.run.steps h.1 step e,
      find-some (has_code code) s.run.steps step e,
      h,
    ))

set_status_forbidden :
    (t : RunStatus) (s : Session)
    → (same RunStatus-discrete s.run.status t || run_edge s.run.status t) ≡ false
    → set_status by_service t s ≡ (raised (invalid_run_transition s.run.status t), s)
unfolding set_status
set_status_forbidden t s e = rw (transition_run_lem by_service s.run t, e) refl

-- What the table forbids to a run that waits for the wiring.
abbrev is_forbidden : RunStatus → Bool
is_forbidden t = not (same RunStatus-discrete awaiting_wiring t || run_edge awaiting_wiring t)

-- nothing returns
abbrev pub IsNothing : {A : Type 0} → A → TestRun → Type 0
IsNothing a run = ⊥

pub forbidden-Ends :
    {A : Type 0} (Q : A → TestRun → Type 0) (t : RunStatus) (k : Unit {0} → Action Session A)
    (s : Session)
    → is_forbidden t ≡ true
    → IsStuck s.run
    → Ends Q IsStuck ((set_status by_service t >>= k) s)
forbidden-Ends Q t k s e h = rw (set_status_forbidden t s (rw (h.0) (ground (arith, e)))) h

perform_step-Ends :
    (services : LegacyServices) (code : StepCode) (t : RunStatus) (s : Session)
    → is_forbidden t ≡ true
    → IsStuck s.run
    → Ends (λ _. IsStuck) IsStuck (perform_step services code t s)
unfolding perform_step
perform_step-Ends services code t s e h =
    goes_on (IsFound code) (λ _. IsStuck) IsStuck _ (step_of_code code s)
      (step_of_code-Ends code s h) (λ step s' found. forbidden-Ends (λ _. IsStuck) t _ s' e found.2)

-- What stands in the way of a phase: its step has succeeded, or the table forbids its status.
abbrev is_blocked : StepCode → RunStatus → Bool
is_blocked code t = same StepCode-discrete code StepCode.capture_validation || is_forbidden t

unblocked :
    (code : StepCode) (t : RunStatus) (step : RunStep)
    → is_blocked code t ≡ true
    → IsLeft step
    → has_code code step ≡ true
    → step_is StepStatus.succeeded step ≡ false
    → is_forbidden t ≡ true
unblocked code t step e h found b = ground (arith, e, h.1, found, b)

sampled-Ends :
    (r : Result (Unit {0})) (s : Session)
    → IsStuck s.run
    → Ends (λ (_ : Unit {0}). IsStuck) IsStuck (r, s)
sampled-Ends (ok _) s h = h
sampled-Ends (raised e) s h = h

after_phase-Ends :
    (services : LegacyServices) (code : StepCode) (s : Session)
    → IsStuck s.run
    → Ends (λ (_ : Unit {0}). IsStuck) IsStuck (after_phase services code s)
unfolding after_phase
after_phase-Ends services code s h =
    if-both (Ends (λ (_ : Unit {0}). IsStuck) IsStuck)
      (same StepCode-discrete code StepCode.collection)
      (sampled-Ends services.create_sample_artifacts s h) h

phase-Ends :
    (services : LegacyServices) (code : StepCode) (t : RunStatus) (s : Session)
    → is_blocked code t ≡ true
    → IsStuck s.run
    → Ends (λ (_ : Unit {0}). IsStuck) IsStuck (phase services code t s)
unfolding phase
phase-Ends services code t s e h =
    goes_on (IsFound code) (λ (_ : Unit {0}). IsStuck) IsStuck _ (step_of_code code s)
      (step_of_code-Ends code s h)
      (λ step s' found. elim (Bool-cases (step_is StepStatus.succeeded step)) [
        | inl b ↦ rw b found.2
        | inr b ↦ rw b (
            goes_on (λ (_ : Unit {0}). IsStuck) (λ (_ : Unit {0}). IsStuck) IsStuck
              (λ _. after_phase services code) (perform_step services code t s')
              (perform_step-Ends services code t s' (unblocked code t step e found.0 found.1 b)
                found.2)
              (λ _ s'' k. after_phase-Ends services code s'' k))
      ])

pub phases-Ends :
    (services : LegacyServices) (rest : List (StepCode × RunStatus)) (s : Session)
    → All (λ p. is_blocked p.0 p.1 ≡ true) rest
    → IsStuck s.run
    → Ends (λ (_ : Unit {0}). IsStuck) IsStuck (phases services rest s)
unfolding phases
phases-Ends services [] s e h = h
phases-Ends services ((code, t) ∷ rest) s e h =
    goes_on (λ (_ : Unit {0}). IsStuck) (λ (_ : Unit {0}). IsStuck) IsStuck
      (λ _. phases services rest) (phase services code t s) (phase-Ends services code t s e.0 h)
      (λ _ s' k. phases-Ends services rest s' e.1 k)
