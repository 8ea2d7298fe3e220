-- ===== src/Tasks/Recovery.antt =====
-- `recover_abandoned_tasks` of backend/app/services/durable_tasks.py.
use open_slt.Prelude.{
  ℕ, Bool, false, not, ◌&&◌, ◌||◌, Option, none, some, List, [], ◌∷◌, if◌then◌else◌, ltb, ◌==◌,
  same, mem, any, count_if, update_where,
}
use open_slt.Status.{resource_queue, RunStatus-discrete, terminal_run_statuses}
use open_slt.Domain.{
  TaskType-discrete, start_run, TaskStatus, queued, recovery_start_run_key, DurableTask, TestRun,
}
use open_slt.Tasks.{TaskTable, Enqueue, has_status, enqueue_task}
use open_slt.Tasks.Claim.{lease_over}

unfoldable pub is_abandoned : ℕ → DurableTask → Bool
is_abandoned now t =
    has_status TaskStatus.running t
    && lease_over now t.lease_expires_at
    && ltb t.attempts t.max_attempts

unfoldable pub requeued : ℕ → DurableTask → DurableTask
requeued now t = record t {
  status = queued;
  locked_by = none;
  lease_expires_at = none;
  available_at = now;
}

abbrev pub is_for_run : ℕ → Option ℕ → Bool
is_for_run r none = false
is_for_run r (some q) = q == r

-- The task is one of those whose runs `recover_abandoned_tasks` leaves alone.
unfoldable pub starts_run : ℕ → DurableTask → Bool
starts_run r t =
    same TaskType-discrete t.task_type start_run
    && (has_status queued t || has_status TaskStatus.running t)
    && is_for_run r t.run_id

abbrev pub recovery : TestRun → Enqueue
recovery run = record {
  task_type = start_run;
  payload = record { run_id = some run.id; step_id = none };
  idempotency_key = recovery_start_run_key run.id run.status_version;
  max_attempts = 3;
  available_at = none;
  reactivate = false;
}

-- The loop over the queued runs; `rows` is the table as it was when the loop began.
unfoldable pub enqueue_queued : ℕ → List DurableTask → List TestRun → TaskTable → TaskTable
unfolding enqueue_task starts_run
enqueue_queued now rows [] table = table
enqueue_queued now rows (run ∷ runs) table = enqueue_queued now rows runs (
    if same RunStatus-discrete run.status resource_queue
      && not (mem RunStatus-discrete run.status terminal_run_statuses)
      && not (any (starts_run run.id) rows)
    then (enqueue_task now (recovery run) table).1
    else table)

unfoldable pub requeue_abandoned : ℕ → TaskTable → TaskTable
unfolding is_abandoned requeued
requeue_abandoned now table = record table {
  rows = update_where (is_abandoned now) (requeued now) table.rows;
}

-- The number of tasks that go back to the queue, and the table afterwards.
unfoldable pub recover_abandoned_tasks : ℕ → List TestRun → TaskTable → ℕ × TaskTable
unfolding requeue_abandoned enqueue_queued
recover_abandoned_tasks now runs table = (
  count_if (is_abandoned now) table.rows,
  enqueue_queued now (requeue_abandoned now table).rows runs (requeue_abandoned now table),
)
