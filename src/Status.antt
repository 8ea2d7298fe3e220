-- ===== src/Status.antt =====
-- The statuses of runs and steps (`RunStatus` and `StepStatus` of backend/app/services/run_state.py).
use open_slt.Prelude.{List, [], ◌∷◌}

pub data RunStatus : Type 0 where
  draft resource_queue precheck awaiting_wiring capture_validation environment_start : RunStatus
  order_execution collection coco_parse statistics awaiting_review awaiting_step_start : RunStatus
  running awaiting_step_completion awaiting_step_retry paused completed precheck_failed : RunStatus
  execution_failed parse_failed cancelled timed_out : RunStatus

pub data StepStatus : Type 0 where
  pending running waiting succeeded failed cancelled : StepStatus

unfoldable pub RunStatus-discrete : Discrete RunStatus
RunStatus-discrete = hlevel

unfoldable pub StepStatus-discrete : Discrete StepStatus
StepStatus-discrete = hlevel

unfoldable pub terminal_run_statuses : List RunStatus
terminal_run_statuses =
    completed ∷ precheck_failed ∷ execution_failed ∷ parse_failed ∷ cancelled ∷ timed_out ∷ []

unfoldable pub pausable_run_statuses : List RunStatus
pausable_run_statuses =
    resource_queue ∷ awaiting_wiring ∷ awaiting_review ∷ awaiting_step_start
    ∷ awaiting_step_completion ∷ awaiting_step_retry ∷ []
