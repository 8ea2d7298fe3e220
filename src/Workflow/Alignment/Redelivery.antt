-- ===== src/Workflow/Alignment/Redelivery.antt =====
-- The task of a step that has begun, delivered again (`start_workflow_run` of
-- backend/app/services/orchestration.py): the step may have succeeded meanwhile, and another one run.
use open_slt.Prelude.{
  ap, ◌∙◌, ℕ, Bool, Option, true, false, not, ◌&&◌, ◌==◌, ◌≡◌, ◌⊎◌, inl, inr, refl, some, none,
  List, [], ◌∷◌, arith, any, find, modify_first, Bool-cases, if-both,
}
use open_slt.Status.{RunStatus, StepStatus, StepStatus-discrete}
use open_slt.Errors.{Action, Result, ok, raised, invalid_step_transition}
use open_slt.Domain.{RunStep, TestRun, Summary}
use open_slt.RunState.{step_transitions}
use open_slt.RunState.Transitions.{transition_step_lem}
use open_slt.Session.{Session, has_step_id, step_is, run_is, put_step, set_step_status, write_step}
use open_slt.Session.Ends.{Ends}
use open_slt.Workflow.Execution.{Externals, after_handler, run_found, run_step_body}
use open_slt.Workflow.Alignment.{Aligned, AllPending}
use open_slt.Workflow.Alignment.Shape.{AtStep, pending_found, step_ids-put}
use open_slt.Workflow.Alignment.Executing.{IsRunning, IsRunning-body}

-- The step of that id has not begun.
abbrev pub is_yet_to_begin : ℕ → RunStep → Bool
is_yet_to_begin i step = has_step_id i step && step_is StepStatus.pending step

-- A step of that id that has succeeded.
abbrev pub HasSucceeded : ℕ → List RunStep → Type 0
HasSucceeded i steps =
    (x : RunStep) × (find (has_step_id i) steps ≡ some x)
    × (x.id ≡ i)
    × (x.status ≡ StepStatus.succeeded)

none_pending :
    (i : ℕ) (steps : List RunStep)
    → AllPending steps
    → any (is_yet_to_begin i) steps ≡ false
    → find (has_step_id i) steps ≡ none
none_pending i [] h n = refl
none_pending i (x ∷ xs) h n = ground (arith, none_pending i xs h.1, h.0)

found_cases :
    (i j : ℕ) (steps : List RunStep)
    → AtStep j StepStatus.running steps
    → any (is_yet_to_begin i) steps ≡ false
    → (find (has_step_id i) steps ≡ none)
      ⊎ (AtStep i StepStatus.running steps ⊎ HasSucceeded i steps)
found_cases i j [] h n = absurd h
found_cases i j (x ∷ xs) (inl h) n = elim (Bool-cases (x.id == i)) [
  | inl e ↦ inr (inr (x, rw e refl, ground arith, h.0))
  | inr e ↦ elim (found_cases i j xs h.2 (ground (arith, n))) [
    | inl a ↦ inl (rw e a)
    | inr (inl b) ↦ inr (inl (inl (h.0, e, b)))
    | inr (inr (y, f, d, k)) ↦ inr (inr (y, rw e f, d, k))
  ]
]
found_cases i j (x ∷ xs) (inr h) n = elim (Bool-cases (x.id == i)) [
  | inl e ↦ inr (inl (inr (h.0, e, h.2)))
  | inr e ↦ inl (rw e (none_pending i xs h.2 (ground (arith, n))))
]

-- a step that has succeeded, written anew, leaves the run at its step
AtStep-rewritten :
    (j : ℕ) (x a : RunStep) (steps : List RunStep)
    → AtStep j StepStatus.running steps
    → find (has_step_id a.id) steps ≡ some x
    → x.status ≡ StepStatus.succeeded
    → a.status ≡ StepStatus.succeeded
    → AtStep j StepStatus.running (modify_first (has_step_id a.id) (λ _. a) steps)
AtStep-rewritten j x a [] h f e k = absurd h
AtStep-rewritten j x a (y ∷ ys) (inl h) f e k = elim (Bool-cases (y.id == a.id)) [
  | inl b ↦ rw b (inl (k, ground (arith, b, h.1), h.2))
  | inr b ↦ rw b (inl (h.0, h.1, AtStep-rewritten j x a ys h.2 (ground (arith, b, f)) e k))
]
AtStep-rewritten j x a (y ∷ ys) (inr h) f e k = elim (Bool-cases (y.id == a.id)) [
  | inl b ↦ absurd (ground (arith, b, f, e, h.0))
  | inr b ↦ absurd (ground (arith, pending_found a.id ys x h.2 (ground (arith, b, f)), e))
]

rewritten-IsRunning :
    (j : ℕ) (x a : RunStep) (run : TestRun)
    → IsRunning j run
    → find (has_step_id a.id) run.steps ≡ some x
    → x.status ≡ StepStatus.succeeded
    → a.status ≡ StepStatus.succeeded
    → IsRunning j (put_step a run)
unfolding put_step
rewritten-IsRunning j x a run h f e k = (
  (h.0.0, rw (step_ids-put a run.steps) h.0.1),
  (h.1.0, AtStep-rewritten j x a run.steps h.1.1 f e k),
)

waits_no_more :
    (a : RunStep) (s : Session)
    → a.status ≡ StepStatus.succeeded
    → set_step_status a StepStatus.waiting s
      ≡ (raised (invalid_step_transition a.status StepStatus.waiting), s)
unfolding set_step_status StepStatus-discrete step_transitions
waits_no_more a s k = rw (transition_step_lem a StepStatus.waiting, k) refl

module _ (ext : Externals) (i j : ℕ) where
  after_handler-again :
      (x : RunStep) (r : Result Summary) (s : Session)
      → IsRunning j s.run
      → find (has_step_id x.id) s.run.steps ≡ some x
      → x.status ≡ StepStatus.succeeded
      → Ends Aligned (IsRunning j) (after_handler ext x r s)
  unfolding after_handler write_step
  after_handler-again x (raised e) s h f k = h
  after_handler-again x (ok summary) s h f k =
      rw
        (waits_no_more (record x { result_summary = summary })
          (record s { run = put_step (record x { result_summary = summary }) s.run }) k)
        (rewritten-IsRunning j x (record x { result_summary = summary }) s.run h f k k)

  run_found-again :
      (x : RunStep) (s : Session)
      → IsRunning j s.run
      → find (has_step_id x.id) s.run.steps ≡ some x
      → x.status ≡ StepStatus.succeeded
      → Ends Aligned (IsRunning j) (run_found ext (some x) s)
  unfolding run_found
  run_found-again x s h f k =
      if-both (λ (m : Action Session Unit). Ends Aligned (IsRunning j) (m s))
        (not (ext.node_found x)) h (after_handler-again x (ext.execute x) s h f k)

  body_again :
      (s : Session)
      → IsRunning j s.run
      → (found : Option RunStep) → find (has_step_id i) s.run.steps ≡ found
      → Ends Aligned (IsRunning j) (run_found ext found s)
      → Ends Aligned (IsRunning j) (run_step_body ext i s)
  unfolding run_step_body
  body_again s h found f k =
      rw (is_running, f) (if-both (Ends Aligned (IsRunning j)) (not ext.workflow_found) h k)
    where
      is_running : run_is RunStatus.running s.run ≡ true
      is_running = ground (arith, h.1.0)

-- While a step runs, the task of a step that has begun ends in an aligned run, or raises with a step
-- running.
pub run_step_body-again :
    (ext : Externals) (i j : ℕ) (s : Session)
    → IsRunning j s.run
    → any (is_yet_to_begin i) s.run.steps ≡ false
    → (k : ℕ) × Ends Aligned (IsRunning k) (run_step_body ext i s)
run_step_body-again ext i j s h n = elim (found_cases i j s.run.steps h.1.1 n) [
  | inl f ↦ (j, body_again ext i j s h none f (unfold run_found in h))
  | inr (inl a) ↦ (i, IsRunning-body ext i s (h.0, (h.1.0, a)))
  | inr (inr (x, f, d, e)) ↦ (
    j,
    body_again ext i j s h (some x) f
        (run_found-again ext i j x s h (ap (λ k. find (has_step_id k) s.run.steps) d ∙ f) e),
  )
]
