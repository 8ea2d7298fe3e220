-- ===== src/Errors.antt =====
-- Exceptions as values: `WorkflowError` (backend/app/services/workflow_core.py),
-- `InvalidStateTransition` (backend/app/services/run_state.py), the `HTTPException`s of
-- backend/app/api/routes/runs.py, and actions that change a state and may raise.
use open_slt.Prelude.{ℕ, Bool, true, false}
use open_slt.Status.{RunStatus, StepStatus}

-- The `code` of a `WorkflowError` or an `HTTPException`.
pub data Code : Type 0 where
  invalid_transition invalid_workflow_step order_action_unresolved : Code
  statistics_analysis_stale statistics_analysis_missing wiring_interface_incomplete : Code
  parser_resource_required parser_terminal_required : Code
  workflow_not_found workflow_node_not_found workflow_step_not_found : Code
  workflow_execution_failed run_timed_out workflow_draft_exists : Code
  precheck_failed_code execution_failed_code : Code
  workflow_validation_failed workflow_not_draft workflow_revision_conflict : Code
  target_metrics_required baseline_metrics_required baseline_scenario_mismatch : Code
  not_found workflow_enabled workflow_archive_forbidden workflow_draft_required
        workflow_not_enabled :
      Code
  other_code : ℕ → Code

pub data Error : Type 0 where
  workflow_error : Code → ℕ → Error
  http_exception : Code → ℕ → Error
  invalid_run_transition : RunStatus → RunStatus → Error
  invalid_step_transition : StepStatus → StepStatus → Error
  value_error stop_iteration cancelled_error : Error
  other_exception : ℕ → Error

-- `getattr(exc, "code", "WORKFLOW_EXECUTION_FAILED")`.
unfoldable pub error_code : Error → Code
error_code (workflow_error c _) = c
error_code _ = workflow_execution_failed

-- `asyncio.CancelledError`, which `except Exception` does not catch.
abbrev pub is_cancellation : Error → Bool
is_cancellation cancelled_error = true
is_cancellation _ = false

pub data Result {ℓ} (A : Type ℓ) : Type ℓ where
  ok : A → Result A
  raised : Error → Result A

abbrev pub is_ok {ℓ} : {A : Type ℓ} → Result A → Bool
is_ok (ok _) = true
is_ok (raised _) = false

-- What an action wrote before it raised stays written: the state comes back beside the error too.
abbrev pub Action {ℓ} : Type ℓ → Type ℓ → Type ℓ
Action S A = S → Result A × S

module _ {ℓ} {S A B : Type ℓ} where
  abbrev pub resume_with : (A → Action S B) → Result A × S → Result B × S
  resume_with f (ok a, s) = f a s
  resume_with f (raised e, s) = (raised e, s)

  infixl 10 ◌>>=◌ ◌>>◌
  abbrev pub ◌>>=◌ : Action S A → (A → Action S B) → Action S B
  ◌>>=◌ m f s = resume_with f (m s)

  abbrev pub ◌>>◌ : Action S A → Action S B → Action S B
  ◌>>◌ m n s = resume_with (λ _. n) (m s)

module _ {ℓ} {S : Type ℓ} where
  abbrev pub pure : {A : Type ℓ} → A → Action S A
  pure a s = (ok a, s)

  abbrev pub raise : {A : Type ℓ} → Error → Action S A
  raise e s = (raised e, s)

  abbrev pub get : Action S S
  get s = (ok s, s)

  abbrev pub modify : (S → S) → Action S (Unit {ℓ})
  modify f s = (ok tt, f s)

  -- `if bad: raise e`.
  abbrev pub raise_if : Bool → Error → Action S (Unit {ℓ})
  raise_if true e s = (raised e, s)
  raise_if false e s = (ok tt, s)

  -- `if b: m`.
  abbrev pub when : Bool → Action S (Unit {ℓ}) → Action S (Unit {ℓ})
  when true m = m
  when false m = λ s. (ok tt, s)
