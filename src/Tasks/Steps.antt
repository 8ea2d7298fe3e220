-- ===== src/Tasks/Steps.antt =====
-- The task table under any sequence of the operations of backend/app/services/durable_tasks.py.
use open_slt.Prelude.{ℕ, Option, List, [], ◌∷◌}
use open_slt.Errors.{Error}
use open_slt.Domain.{TestRun}
use open_slt.Tasks.{TaskTable, Enqueue, enqueue_task}
use open_slt.Tasks.Claim.{claim_task, claim_each, claim_due_tasks, due_ids, renew_task_lease}
use open_slt.Tasks.Recovery.{recover_abandoned_tasks}
use open_slt.Tasks.Execution.{settle_task}
use open_slt.Tasks.Invariant.{
  TableIsSound, enqueue_task-TableIsSound, claim_task-TableIsSound, renew_task_lease-TableIsSound,
  recover_abandoned_tasks-TableIsSound, settle_task-TableIsSound,
}

-- One operation, of any worker or request, at any instant.
pub data TaskStep (table : TaskTable) : TaskTable → Type 0 where
  enqueue : (now : ℕ) (e : Enqueue) → TaskStep table (enqueue_task now e table).1
  claim : (now id worker lease : ℕ) → TaskStep table (claim_task now id worker lease table).1
  claim_due :
      (now limit worker lease : ℕ) → TaskStep table (claim_due_tasks now limit worker lease table).1
  renew : (now id worker lease : ℕ) → TaskStep table (renew_task_lease now id worker lease table).1
  recover :
      (now : ℕ) (runs : List TestRun) → TaskStep table (recover_abandoned_tasks now runs table).1
  settle :
      (now id worker : ℕ) (e : Option Error) → TaskStep table (settle_task now id worker e table)

pub data TaskSteps (table : TaskTable) : TaskTable → Type 0 where
  here : TaskSteps table table
  next : {t u : TaskTable} → TaskSteps table t → TaskStep t u → TaskSteps table u

claim_each-TableIsSound :
    (now worker lease : ℕ) (ids : List ℕ) (table : TaskTable)
    → TableIsSound table
    → TableIsSound (claim_each now worker lease ids table).1
unfolding claim_each
claim_each-TableIsSound now worker lease [] table h = h
claim_each-TableIsSound now worker lease (i ∷ is) table h =
    claim_each-TableIsSound now worker lease is (claim_task now i worker lease table).1
      (claim_task-TableIsSound now i worker lease table h)

TaskStep-TableIsSound : {t u : TaskTable} → TaskStep t u → TableIsSound t → TableIsSound u
unfolding claim_due_tasks
TaskStep-TableIsSound {t} (enqueue now e) h = enqueue_task-TableIsSound now e t h
TaskStep-TableIsSound {t} (claim now i w lease) h = claim_task-TableIsSound now i w lease t h
TaskStep-TableIsSound {t} (claim_due now limit w lease) h =
    claim_each-TableIsSound now w lease (due_ids now limit t) t h
TaskStep-TableIsSound {t} (renew now i w lease) h = renew_task_lease-TableIsSound now i w lease t h
TaskStep-TableIsSound {t} (recover now runs) h = recover_abandoned_tasks-TableIsSound now runs t h
TaskStep-TableIsSound {t} (settle now i w e) h = settle_task-TableIsSound now i w e t h

-- Whatever operations on the queue follow one another, of any workers, at any instants and in any
-- order: from a sound table the table stays sound. No task is tried more often than allowed; exactly
-- the running tasks have a worker and a lease; no two tasks have one number or one idempotency key.
pub TaskSteps-TableIsSound : {t u : TaskTable} → TaskSteps t u → TableIsSound t → TableIsSound u
TaskSteps-TableIsSound here h = h
TaskSteps-TableIsSound (next r s) h = TaskStep-TableIsSound s (TaskSteps-TableIsSound r h)
