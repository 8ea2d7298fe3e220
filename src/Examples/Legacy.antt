-- ===== src/Examples/Legacy.antt =====
-- The theorem about a run of the older fixed sequence that is tried again.
use open_slt.Prelude.{refl, none, [], ◌∷◌, ℕ}
use open_slt.Status.{StepStatus, StepStatus-discrete, awaiting_wiring}
use open_slt.Errors.{ok}
use open_slt.Domain.{StepCode, StepCode-discrete, legacy, RunStep}
use open_slt.Session.{Session}
use open_slt.Workflow.Legacy.{LegacyServices, continue_after_wiring}
use open_slt.Workflow.Legacy.Retrying.{HasStayed, continue_after_wiring-HasStayed}
use open_slt.Examples.{step_of, run_of, session_of}

abbrev phase_of : ℕ → StepCode → StepStatus → RunStep
phase_of i code status = record (step_of i legacy status) { code = code }

abbrev tried_again : Session
tried_again =
    session_of
      (record (run_of awaiting_wiring (
        phase_of 1 StepCode.precheck StepStatus.succeeded
        ∷ phase_of 2 StepCode.wiring_confirmation StepStatus.succeeded
        ∷ phase_of 3 StepCode.capture_validation StepStatus.succeeded
        ∷ phase_of 4 StepCode.environment_start StepStatus.pending
        ∷ phase_of 5 StepCode.order_execution StepStatus.pending
        ∷ phase_of 6 StepCode.collection StepStatus.pending
        ∷ phase_of 7 StepCode.coco_parse StepStatus.pending
        ∷ phase_of 8 StepCode.statistics StepStatus.pending
        ∷ phase_of 9 StepCode.manual_review StepStatus.pending
        ∷ phase_of 10 StepCode.reporting StepStatus.pending
        ∷ [])) { workflow_version_id = none })

abbrev undisturbed : LegacyServices
undisturbed = record { meanwhile = λ code run. run; create_sample_artifacts = ok tt }

continue_after_wiring-HasStayed_example : HasStayed (continue_after_wiring undisturbed tried_again)
unfolding StepStatus-discrete StepCode-discrete
continue_after_wiring-HasStayed_example =
    continue_after_wiring-HasStayed undisturbed tried_again refl (
      (refl, refl),
      (
        (refl, refl),
        (
          (refl, refl),
          (
            (refl, refl),
            (
              (refl, refl),
              ((refl, refl), ((refl, refl), ((refl, refl), ((refl, refl), ((refl, refl), tt))))),
            ),
          ),
        ),
      ),
    )
