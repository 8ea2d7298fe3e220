-- ===== src/Examples/Steps.antt =====
-- The theorems about steps: one run that can begin its step, and one whose step fails.
use open_slt.Prelude.{true, false, refl, ◌≡◌, some, [], ◌∷◌}
use open_slt.Status.{RunStatus, StepStatus, StepStatus-discrete, awaiting_step_start}
use open_slt.Errors.{ok, raised, other_exception}
use open_slt.Domain.{RunStep, NodeType-discrete, order_preparation, data_statistics}
use open_slt.Workflow.Execution.{Externals, start_workflow_run}
use open_slt.Workflow.Execution.Failure.{AfterRaise, start_workflow_run-HasFailed}
use open_slt.Workflow.{BeginMode, begin_workflow_step}
use open_slt.Workflow.Beginning.{BeginOutcome, begin_workflow_step-BeginOutcome}
use open_slt.Session.{Session}
use open_slt.Examples.{step_of, run_of, session_of, three_steps}

abbrev ready_session : Session
ready_session = session_of (run_of awaiting_step_start (three_steps StepStatus.pending))

begin_workflow_step-BeginOutcome_example :
    BeginOutcome BeginMode.start 12 ready_session
      (begin_workflow_step 12 BeginMode.start ready_session)
begin_workflow_step-BeginOutcome_example =
    begin_workflow_step-BeginOutcome BeginMode.start 12 ready_session

abbrev failing_step : RunStep
failing_step = step_of 11 order_preparation StepStatus.running

abbrev failing_session : Session
failing_session =
    session_of
      (run_of RunStatus.running (failing_step ∷ step_of 12 data_statistics StepStatus.pending ∷ []))

-- the node's handler raises
abbrev pub failing_world : Externals
failing_world = record {
  workflow_found = true;
  node_found = λ step. true;
  execute = λ step. raised (other_exception 1);
  collect = λ step. ok 1;
  archive = λ n. ok n;
}

start_workflow_run-HasFailed_example :
    let (r, after) = start_workflow_run failing_world (some 11) failing_session in
    (r ≡ ok tt)
    × AfterRaise false 11 (other_exception 1) failing_session.run after.run
    × (after.locks ≡ failing_session.locks)
unfolding StepStatus-discrete NodeType-discrete
start_workflow_run-HasFailed_example =
    start_workflow_run-HasFailed failing_world (other_exception 1) failing_step failing_session refl
      refl refl refl refl refl refl refl
