-- ===== src/Routes/Steps.antt =====
-- The requests on one step of a run: `complete_run_step`, `confirm_run_step` and `retry_run_step` of
-- backend/app/api/routes/runs.py. The key `session_status` of a summary is not modelled.
pub mod Aligning
use open_slt.Prelude.{
  ℕ, Bool, true, false, not, ◌&&◌, ◌||◌, Option, none, some, if◌then◌else◌, find, ◌==◌,
}
use open_slt.Status.{StepStatus, awaiting_step_completion, awaiting_step_retry}
use open_slt.Errors.{
  workflow_error, parser_terminal_required, parser_resource_required, invalid_workflow_step,
  order_action_unresolved, Result, ok, raised, Action, ◌>>=◌, ◌>>◌, pure, raise,
}
use open_slt.Domain.{
  parser_parse, order_preparation, order_action_retried, Summary, RunStep, TestRun,
}
use open_slt.RunState.{by_service}
use open_slt.Session.{
  Session, run_is, step_is, node_is, has_step_id, current_step, write_step, set_status,
  set_step_status,
}
use open_slt.Workflow.{begin_workflow_step, BeginMode, refuse}
use open_slt.Workflow.Completion.{complete_workflow_step, is_current, order_unresolved}
use open_slt.Routes.{request, enqueue, step_task, is_parser}

-- What completing a step asks of the world: the artifact of a merged capture, whether the run has an
-- enabled parser resource, what the parser's outputs are, and the end of an order's session.
pub record StepServices : Type 0 where
  pub collect : RunStep → Result ℕ
  pub parser_enabled : TestRun → Bool
  pub parser_outputs : RunStep → Result Summary
  pub close_session : RunStep → Result (Unit {0})

-- `run.status != "awaiting_step_completion" or step.status != "waiting" or not current or ...`,
-- negated.
unfoldable pub is_completable : RunStep → TestRun → Bool
is_completable step run =
    run_is awaiting_step_completion run
    && step_is StepStatus.waiting step
    && is_current step (current_step run)

unfoldable pub with_outputs : RunStep → Result Summary → Action Session Unit
with_outputs step (ok summary) = write_step (record step { result_summary = summary })
with_outputs step (raised e) = raise e

-- `if step and step.node_type == "parser_parse"`.
unfoldable pub prepare_parser : StepServices → RunStep → Action Session Unit
unfolding is_completable with_outputs
prepare_parser services step s =
    if not (node_is parser_parse step)
    then (ok tt, s)
    else if not (is_completable step s.run)
    then refuse invalid_workflow_step s
    else if not (services.parser_enabled s.run)
    then refuse parser_resource_required s
    else with_outputs step (services.parser_outputs step) s

unfoldable pub closed : Result (Unit {0}) → Action Session Unit
closed (ok _) = pure tt
closed (raised e) = raise e

-- `if step and step.node_type == "order_preparation"`.
unfoldable pub prepare_order : StepServices → RunStep → Action Session Unit
unfolding is_completable closed
prepare_order services step s =
    if not (node_is order_preparation step)
    then (ok tt, s)
    else if not (is_completable step s.run)
    then refuse invalid_workflow_step s
    else if order_unresolved step
    then refuse order_action_unresolved s
    else closed (services.close_session step) s

unfoldable pub prepare_step : StepServices → Option RunStep → Action Session Unit
unfolding prepare_parser prepare_order
prepare_step services none = pure tt
prepare_step services (some step) = prepare_parser services step >> prepare_order services step

-- `complete_run_step`.
unfoldable pub complete_run_step : StepServices → ℕ → ℕ → Action Session Unit
unfolding request prepare_step
complete_run_step services i actor = request λ s.
    (prepare_step services (find (has_step_id i) s.run.steps)
        >> complete_workflow_step services.collect i actor)
      s

-- `confirm_run_step`, with `confirm_workflow_step` of the orchestration.
unfoldable pub confirm_run_step : StepServices → ℕ → ℕ → Action Session Unit
unfolding request
confirm_run_step services i actor = request (complete_workflow_step services.collect i actor)

-- An order step that waits with an action whose outcome is not known.
unfoldable pub has_lost_action : RunStep → TestRun → Bool
has_lost_action step run =
    order_unresolved step && step_is StepStatus.waiting step && run_is awaiting_step_completion run

-- The operator gives the action up: the step fails, and the run waits for its retry.
unfoldable pub give_up_action : RunStep → Action Session Unit
give_up_action step = do
  stopped ← set_step_status step StepStatus.failed
  write_step (record stopped { error_message = some order_action_retried })
  set_status by_service awaiting_step_retry

unfoldable pub prepare_retry : StepServices → Option RunStep → Action Session Unit
unfolding has_lost_action closed give_up_action
prepare_retry services none s = (ok tt, s)
prepare_retry services (some step) s =
    if has_lost_action step s.run
    then (closed (services.close_session step) >> give_up_action step) s
    else (ok tt, s)

-- `retry_run_step`.
unfoldable pub retry_run_step : StepServices → ℕ → Action Session Unit
unfolding request prepare_retry enqueue
retry_run_step services i = request λ s.
    if is_parser (find (has_step_id i) s.run.steps)
    then raise (workflow_error parser_terminal_required 409) s
    else (prepare_retry services (find (has_step_id i) s.run.steps)
          >> (begin_workflow_step i BeginMode.retry >>= λ step. enqueue (step_task step)))
        s
