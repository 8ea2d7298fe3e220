-- ===== src/RunState.antt =====
-- The transition tables and the two transition functions of backend/app/services/run_state.py.
pub mod Table
pub mod Transitions
pub mod History
pub mod Reach
use open_slt.Prelude.{
  ℕ, zero, ◌+◌, String, Bool, true, false, not, ◌&&◌, Option, none, some, List, [], ◌∷◌, ◌++◌, map,
  if◌then◌else◌, same, mem,
}
use open_slt.Status.{
  RunStatus, RunStatus-discrete, StepStatus, StepStatus-discrete, draft, resource_queue, precheck,
  awaiting_wiring, capture_validation, environment_start, order_execution, collection, coco_parse,
  statistics, awaiting_review, awaiting_step_start, awaiting_step_completion, awaiting_step_retry,
  paused, completed, precheck_failed, execution_failed, parse_failed, timed_out,
  terminal_run_statuses, pausable_run_statuses,
}
use open_slt.Errors.{Error, invalid_run_transition, invalid_step_transition, Result, ok, raised}
use open_slt.Domain.{RunStatusTransition, TestRun, RunStep}

-- A dictionary from a status to the set of its targets.
abbrev pub TransitionTable : Type 0 → Type 0
TransitionTable S = List (S × List S)

module _ {S : Type 0} (d : Discrete S) where
  -- `s in transitions`.
  abbrev pub has_entry : S → TransitionTable S → Bool
  has_entry s [] = false
  has_entry s ((k, _) ∷ rest) = let later = has_entry s rest in if same d s k then true else later

  -- `transitions.get(s, frozenset())`.
  abbrev pub targets : S → TransitionTable S → List S
  targets s [] = []
  targets s ((k, ts) ∷ rest) = let later = targets s rest in if same d s k then ts else later

-- `_RUN_TRANSITIONS` as it is written, before the loop below it.
pub base_run_transitions : TransitionTable RunStatus
unfolding pausable_run_statuses
base_run_transitions =
    (draft, resource_queue ∷ precheck_failed ∷ execution_failed ∷ RunStatus.cancelled ∷ [])
    ∷ (
      resource_queue,
      precheck ∷ awaiting_step_start ∷ completed ∷ precheck_failed ∷ execution_failed ∷ paused
          ∷ RunStatus.cancelled ∷ [],
    )
    ∷ (precheck, awaiting_wiring ∷ precheck_failed ∷ RunStatus.cancelled ∷ [])
    ∷ (awaiting_wiring, capture_validation ∷ execution_failed ∷ paused ∷ RunStatus.cancelled ∷ [])
    ∷ (capture_validation, environment_start ∷ execution_failed ∷ RunStatus.cancelled ∷ [])
    ∷ (environment_start, order_execution ∷ execution_failed ∷ RunStatus.cancelled ∷ [])
    ∷ (order_execution, collection ∷ execution_failed ∷ RunStatus.cancelled ∷ [])
    ∷ (collection, coco_parse ∷ execution_failed ∷ RunStatus.cancelled ∷ [])
    ∷ (coco_parse, statistics ∷ parse_failed ∷ execution_failed ∷ RunStatus.cancelled ∷ [])
    ∷ (statistics, awaiting_review ∷ execution_failed ∷ RunStatus.cancelled ∷ [])
    ∷ (awaiting_review, completed ∷ paused ∷ RunStatus.cancelled ∷ [])
    ∷ (
      awaiting_step_start,
      awaiting_review ∷ RunStatus.running ∷ awaiting_step_completion ∷ paused ∷ RunStatus.cancelled
          ∷ [],
    )
    ∷ (
      RunStatus.running,
      awaiting_step_completion ∷ awaiting_step_retry ∷ execution_failed ∷ parse_failed
          ∷ RunStatus.cancelled ∷ [],
    )
    ∷ (
      awaiting_step_completion,
      awaiting_review ∷ awaiting_step_start ∷ RunStatus.running ∷ awaiting_step_retry ∷ completed
          ∷ paused ∷ RunStatus.cancelled ∷ [],
    )
    ∷ (
      awaiting_step_retry,
      RunStatus.running ∷ awaiting_step_completion ∷ paused ∷ RunStatus.cancelled ∷ [],
    )
    ∷ (paused, pausable_run_statuses ++ RunStatus.cancelled ∷ [])
    ∷ (precheck_failed, resource_queue ∷ [])
    ∷ (execution_failed, resource_queue ∷ [])
    ∷ (parse_failed, resource_queue ∷ [])
    ∷ (completed, [])
    ∷ (RunStatus.cancelled, [])
    ∷ (timed_out, [])
    ∷ []

-- The loop that adds `timed_out` to the targets of every status that is not terminal.
add_timed_out : RunStatus × List RunStatus → RunStatus × List RunStatus
unfolding terminal_run_statuses
add_timed_out (s, ts) =
    if mem RunStatus-discrete s terminal_run_statuses then (s, ts) else (s, ts ++ timed_out ∷ [])

unfoldable pub run_transitions : TransitionTable RunStatus
unfolding base_run_transitions add_timed_out
run_transitions = map add_timed_out base_run_transitions

unfoldable pub step_transitions : TransitionTable StepStatus
step_transitions =
    (StepStatus.pending, StepStatus.running ∷ StepStatus.waiting ∷ StepStatus.cancelled ∷ [])
    ∷ (
      StepStatus.running,
      StepStatus.waiting ∷ StepStatus.succeeded ∷ StepStatus.failed ∷ StepStatus.cancelled ∷ [],
    )
    ∷ (
      StepStatus.waiting,
      StepStatus.running ∷ StepStatus.succeeded ∷ StepStatus.failed ∷ StepStatus.cancelled ∷ [],
    )
    ∷ (
      StepStatus.failed,
      StepStatus.pending ∷ StepStatus.running ∷ StepStatus.waiting ∷ StepStatus.cancelled ∷ [],
    )
    ∷ (StepStatus.succeeded, [])
    ∷ (StepStatus.cancelled, [])
    ∷ []

-- `_transition`: the status that `entity.status` has afterwards, or the exception.
unfoldable pub transition :
    {S : Type 0} → Discrete S → TransitionTable S → (S → S → Error) → S → S → Result S
transition d transitions invalid current target =
    if not (has_entry d current transitions && has_entry d target transitions)
    then raised (invalid current target)
    else if same d current target
    then ok current
    else if mem d target (targets d current transitions)
    then ok target
    else raised (invalid current target)

-- Who asked for a transition, and why: the keyword arguments of `transition_run`.
pub record Origin : Type 0 where
  pub source : String
  pub actor_id : Option ℕ
  pub reason : Option String

abbrev pub by_service : Origin
by_service = record { source = "service"; actor_id = none; reason = none }

-- What `transition_run` does to the run once `_transition` has set its status.
unfoldable pub record_transition : Origin → TestRun → RunStatus → TestRun
record_transition o run target =
    if same RunStatus-discrete run.status target then run else (record run {
      status = target;
      status_version = run.status_version + 1;
      status_transitions =
          run.status_transitions
          ++ record {
            from_status = run.status;
            to_status = target;
            status_version = run.status_version + 1;
            source = o.source;
            actor_id = o.actor_id;
            reason = o.reason;
          }
            ∷ [];
    })

finish_transition : Origin → TestRun → Result RunStatus → Result TestRun
unfolding record_transition
finish_transition o run (ok s) = ok (record_transition o run s)
finish_transition o run (raised e) = raised e

unfoldable pub transition_run : Origin → TestRun → RunStatus → Result TestRun
unfolding transition run_transitions finish_transition
transition_run o run target =
    finish_transition o run
      (transition RunStatus-discrete run_transitions invalid_run_transition run.status target)

finish_step : RunStep → Result StepStatus → Result RunStep
finish_step step (ok s) = ok (record step { status = s })
finish_step step (raised e) = raised e

unfoldable pub transition_step : RunStep → StepStatus → Result RunStep
unfolding transition step_transitions finish_step
transition_step step target =
    finish_step step
      (transition StepStatus-discrete step_transitions invalid_step_transition step.status target)
