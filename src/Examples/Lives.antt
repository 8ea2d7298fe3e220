-- ===== src/Examples/Lives.antt =====
-- The theorems about whole lives of runs: one that is started and whose task is executed.
use open_slt.Prelude.{true, ◌≡◌, refl, none, inl, List, [], ◌∷◌}
use open_slt.Status.{StepStatus, resource_queue}
use open_slt.Errors.{ok}
use open_slt.Domain.{RunStep, TestRun, server_config, order_preparation, report_generation}
use open_slt.Session.{Session}
use open_slt.Workflow.Execution.{start_workflow_run}
use open_slt.Workflow.Alignment.{IsAligned}
use open_slt.Workflow.Alignment.Handling.{start_workflow_run-IsAligned}
use open_slt.Routes.{run_start}
use open_slt.Routes.Steps.{StepServices}
use open_slt.Routes.Sequences.{no_event, and_then, started, task_executed, Events-IsAligned}
use open_slt.Examples.{run_of, session_of, step_of}
use open_slt.Examples.Steps.{failing_world}

-- nothing has been done yet
abbrev fresh_steps : List RunStep
fresh_steps =
    step_of 11 server_config StepStatus.pending
    ∷ step_of 12 order_preparation StepStatus.pending
    ∷ step_of 13 report_generation StepStatus.pending
    ∷ []

abbrev waiting_session : Session
waiting_session = session_of (run_of resource_queue fresh_steps)

-- the services answer, and the parser has nothing new to say
abbrev services : StepServices
services = record {
  collect = λ step. ok 1;
  parser_enabled = λ run. true;
  parser_outputs = λ step. ok step.result_summary;
  close_session = λ step. ok tt;
}

waiting_IsAligned : IsAligned waiting_session.run
waiting_IsAligned = ((refl, (refl, (refl, (refl, tt)))), inl (refl, (refl, (refl, tt))))

abbrev started_run : TestRun
started_run = (run_start 1 waiting_session).1.run

Events-IsAligned_example :
    IsAligned
      (start_workflow_run failing_world none (record waiting_session { run = started_run })).1.run
Events-IsAligned_example =
    Events-IsAligned failing_world services waiting_session.run
      (start_workflow_run failing_world none (record waiting_session { run = started_run })).1.run
      (and_then (and_then (no_event waiting_session.run) (started 1 waiting_session))
        (task_executed none (record waiting_session { run = started_run }) tt))
      waiting_IsAligned

start_workflow_run-IsAligned_example :
    let (r, after) = start_workflow_run failing_world none waiting_session in
    (r ≡ ok tt) × IsAligned after.run
start_workflow_run-IsAligned_example =
    start_workflow_run-IsAligned failing_world none waiting_session (λ n. refl) waiting_IsAligned tt
