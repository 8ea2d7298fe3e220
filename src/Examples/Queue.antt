-- ===== src/Examples/Queue.antt =====
-- The theorems about the task queue at a table with one task, which starts the run 1.
use open_slt.Prelude.{ℕ, true, false, refl, ◌≡◌, some, none, [], ◌∷◌, arith, find, length}
use open_slt.Status.{resource_queue}
use open_slt.Errors.{value_error, other_exception}
use open_slt.Domain.{DurableTask, TaskType, TaskStatus-discrete, start_run_key}
use open_slt.Tasks.{TaskTable, Enqueue, enqueue_task, is_supported, has_id}
use open_slt.Tasks.Claim.{claim_task, claimable, renew_task_lease}
use open_slt.Tasks.Recovery.{recover_abandoned_tasks}
use open_slt.Tasks.Execution.{settle_task}
use open_slt.Tasks.Invariant.{TableIsSound}
use open_slt.Tasks.Steps.{TaskStep, TaskSteps, TaskSteps-TableIsSound}
use open_slt.Tasks.Ownership.{claim_task_exclusive, claim_task_owner}
use open_slt.Tasks.Exhausted.{recover_abandoned_tasks-last_attempt}
use open_slt.Tasks.Settling.{AfterFailure, settle_task-AfterFailure}
use open_slt.Tasks.Idempotence.{task_number, enqueue_task_twice}
use open_slt.Examples.{queued_task, attempt_of, table_of, run_of}

abbrev start_request : Enqueue
start_request = record {
  task_type = TaskType.start_run;
  payload = record { run_id = some 1; step_id = none };
  idempotency_key = start_run_key 1 0;
  max_attempts = 3;
  available_at = none;
  reactivate = true;
}

abbrev empty_table : TaskTable
empty_table = record { rows = []; next_id = 1 }

empty_table-TableIsSound : TableIsSound empty_table
empty_table-TableIsSound = record {
  rows_sound = tt;
  numbered = tt;
  one_id = λ i. ground arith;
  one_key = λ k. ground arith;
}

abbrev with_task : TaskTable
with_task = (enqueue_task 10 start_request empty_table).1

abbrev with_claim : TaskTable
with_claim = (claim_task 20 1 4 30 with_task).1

TaskSteps-TableIsSound_example : TableIsSound (settle_task 25 1 4 (some value_error) with_claim)
TaskSteps-TableIsSound_example =
    TaskSteps-TableIsSound
      (TaskSteps.next
        (TaskSteps.next (TaskSteps.next TaskSteps.here (TaskStep.enqueue 10 start_request))
          (TaskStep.claim 20 1 4 30))
        (TaskStep.settle 25 1 4 (some value_error)))
      empty_table-TableIsSound

queued_task-TableIsSound : TableIsSound (table_of queued_task)
queued_task-TableIsSound = record {
  rows_sound = ground arith;
  numbered = ground arith;
  one_id = λ i. ground arith;
  one_key = λ k. ground arith;
}

claim_task_exclusive_example :
    claim_task 40 1 6 30 (claim_task 20 1 4 30 (table_of queued_task)).1
    ≡ (false, (claim_task 20 1 4 30 (table_of queued_task)).1)
unfolding claim_task claimable TaskStatus-discrete
claim_task_exclusive_example =
    claim_task_exclusive 20 40 1 4 6 30 30 (table_of queued_task) queued_task-TableIsSound refl
      (omega arith)

claim_task_owner_example :
    let after = (claim_task 20 1 4 30 (table_of queued_task)).1 in
    (renew_task_lease 40 1 6 30 after ≡ (false, after))
    × (settle_task 40 1 6 none after ≡ after)
    × ((renew_task_lease 40 1 4 30 after).0 ≡ true)
unfolding claim_task claimable TaskStatus-discrete
claim_task_owner_example =
    claim_task_owner 20 40 1 4 6 30 30 none (table_of queued_task) queued_task-TableIsSound refl
      (λ e. omega arith)

recover_abandoned_tasks-last_attempt_example :
    let after =
      (recover_abandoned_tasks 1000 (run_of resource_queue [] ∷ []) (table_of (attempt_of 3))).1 in
    (after.next_id ≡ 2)
    × (find (has_id 1) after.rows ≡ some (attempt_of 3))
    × ((later j w lease : ℕ)
        → find (has_id 1) (claim_task later j w lease after).1.rows ≡ some (attempt_of 3))
recover_abandoned_tasks-last_attempt_example =
    recover_abandoned_tasks-last_attempt (attempt_of 3) 1 1000 (run_of resource_queue [])
      (table_of (attempt_of 3)) (record { is_running = refl; no_more = omega arith }) refl refl refl

settle_task-AfterFailure_example :
    (t' : DurableTask) × (find
        (has_id 1)
        (settle_task 30 1 4 (some (other_exception 1)) (table_of (attempt_of 1))).rows
      ≡ some t')
    × AfterFailure 30 (attempt_of 1) t'
    × (t'.attempts ≡ 1)
    × (t'.locked_by ≡ none)
    × (t'.last_error ≡ some (other_exception 1))
unfolding TaskStatus-discrete
settle_task-AfterFailure_example =
    settle_task-AfterFailure 30 1 4 (other_exception 1) (attempt_of 1) (table_of (attempt_of 1))
      refl refl

enqueue_task_twice_example :
    let (r, after) = enqueue_task 10 start_request empty_table in
    let (r', after') = enqueue_task 20 (record start_request { reactivate = false }) after in
    (task_number r' ≡ task_number r)
    × (length after'.rows ≡ length after.rows)
    × (after'.next_id ≡ after.next_id)
unfolding is_supported
enqueue_task_twice_example =
    enqueue_task_twice 10 20 start_request (record start_request { reactivate = false }) empty_table
      refl refl refl
