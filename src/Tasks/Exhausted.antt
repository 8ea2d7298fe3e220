-- ===== src/Tasks/Exhausted.antt =====
-- A task whose worker dies during the last attempt (backend/app/services/durable_tasks.py).
use open_slt.Prelude.{
  ℕ, ◌≤◌, true, false, ◌≡◌, refl, some, List, [], ◌∷◌, arith, find, any, find-update_where,
  any_of_find,
}
use open_slt.Domain.{TaskStatus, start_run, DurableTask, TestRun}
use open_slt.Tasks.{TaskTable, has_id}
use open_slt.Tasks.Claim.{claimable, claimed, claims, claim_task}
use open_slt.Tasks.Recovery.{
  is_abandoned, requeued, starts_run, enqueue_queued, requeue_abandoned, recover_abandoned_tasks,
}

-- The task is running its last attempt.
pub record IsLastAttempt (t : DurableTask) : Type 0 where
  pub is_running : t.status ≡ TaskStatus.running
  pub no_more : t.max_attempts ≤ t.attempts

module _ (t : DurableTask) (last : IsLastAttempt t) (i : ℕ) where
  not_claimed : (now j : ℕ) → claims now j t ≡ false
  unfolding claimable
  not_claimed now j = ground arith

  not_abandoned : (now : ℕ) → is_abandoned now t ≡ false
  unfolding is_abandoned
  not_abandoned now = ground arith

  claim_task-last :
      (now j w lease : ℕ) (table : TaskTable)
      → find (has_id i) table.rows ≡ some t
      → find (has_id i) (claim_task now j w lease table).1.rows ≡ some t
  unfolding claim_task claimed
  claim_task-last now j w lease table f =
      find-update_where (has_id i) (claims now j) (claimed now w lease) (λ u. refl) table.rows t
        (not_claimed now j) f

  requeue-last :
      (now : ℕ) (table : TaskTable)
      → find (has_id i) table.rows ≡ some t
      → find (has_id i) (requeue_abandoned now table).rows ≡ some t
  unfolding requeue_abandoned requeued
  requeue-last now table f =
      find-update_where (has_id i) (is_abandoned now) (requeued now) (λ u. refl) table.rows t
        (not_abandoned now) f

  starting : (r : ℕ) → t.task_type ≡ start_run → t.run_id ≡ some r → starts_run r t ≡ true
  unfolding starts_run
  starting r ty ri = ground (arith, last)

skip_run :
    (now : ℕ) (rows : List DurableTask) (run : TestRun) (table : TaskTable)
    → any (starts_run run.id) rows ≡ true
    → enqueue_queued now rows (run ∷ []) table ≡ table
unfolding enqueue_queued
skip_run now rows run table h = ground arith

-- A task that starts a run and whose worker died during the last attempt is lost, and the run with
-- it: although the lease may long be over, recovery neither queues the task again nor enqueues
-- another one for the run (no row gets a new number), and no later claim takes it: it stays the
-- same running task.
pub recover_abandoned_tasks-last_attempt :
    (t : DurableTask) (i now : ℕ) (run : TestRun) (table : TaskTable)
    → IsLastAttempt t
    → t.task_type ≡ start_run
    → t.run_id ≡ some run.id
    → find (has_id i) table.rows ≡ some t
    → let after = (recover_abandoned_tasks now (run ∷ []) table).1 in
      (after.next_id ≡ table.next_id)
      × (find (has_id i) after.rows ≡ some t)
      × ((later j w lease : ℕ) → find (has_id i) (claim_task later j w lease after).1.rows ≡ some t)
recover_abandoned_tasks-last_attempt t i now run table last ty ri f =
    rw recovered
      (requeue-id, still, λ later j w lease. claim_task-last t last i later j w lease _ still)
  where
    still : find (has_id i) (requeue_abandoned now table).rows ≡ some t
    still = requeue-last t last i now table f

    recovered : (recover_abandoned_tasks now (run ∷ []) table).1 ≡ requeue_abandoned now table
    recovered =
        unfold recover_abandoned_tasks in
        skip_run now (requeue_abandoned now table).rows run (requeue_abandoned now table) (
          any_of_find (has_id i) (starts_run run.id) (requeue_abandoned now table).rows t
            (starting t last i run.id ty ri) still)

    requeue-id : (requeue_abandoned now table).next_id ≡ table.next_id
    requeue-id = unfold requeue_abandoned in refl
