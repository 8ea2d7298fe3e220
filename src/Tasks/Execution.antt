-- ===== src/Tasks/Execution.antt =====
-- `execute_claimed_task` of backend/app/services/durable_tasks.py.
use open_slt.Prelude.{
  ℕ, ◌+◌, ◌^◌, min, ◌&&◌, Option, none, some, if◌then◌else◌, leb, find, update_where,
}
use open_slt.Errors.{Error}
use open_slt.Domain.{TaskStatus, queued, DurableTask}
use open_slt.Tasks.{TaskTable, has_id}
use open_slt.Tasks.Claim.{owned_by}

-- What the end of an attempt does to the task, by the exception that it raised, if any.
unfoldable pub settled : ℕ → Option Error → DurableTask → DurableTask
settled now none t = record t {
  status = TaskStatus.succeeded;
  finished_at = some now;
  locked_by = none;
  lease_expires_at = none;
}
settled now (some e) t =
    if leb t.max_attempts t.attempts
    then (record t {
      status = TaskStatus.failed;
      finished_at = some now;
      last_error = some e;
      locked_by = none;
      lease_expires_at = none;
    })
    else (record t {
      status = queued;
      available_at = now + min 60 (2 ^ t.attempts);
      last_error = some e;
      locked_by = none;
      lease_expires_at = none;
    })

-- The last part of `execute_claimed_task`: only the worker that still has the task settles it.
unfoldable pub settle_task : ℕ → ℕ → ℕ → Option Error → TaskTable → TaskTable
unfolding settled
settle_task now id worker error table = record table {
  rows = update_where (λ t. has_id id t && owned_by worker t) (settled now error) table.rows;
}

-- `execute_claimed_task`. The payload's work is a parameter: from the table it leads to the
-- exception that it raises, if any, the table that everybody leaves meanwhile, and the instant.
unfoldable pub execute_claimed_task :
    (DurableTask → TaskTable → Option Error × TaskTable × ℕ) → ℕ → ℕ → TaskTable → TaskTable
unfolding settle_task
execute_claimed_task execute_payload id worker table = elim (find (has_id id) table.rows) [
  | none ↦ table
  | some t ↦
      let (error, after, now) = execute_payload t table in
      let settled_table = settle_task now id worker error after in
      if owned_by worker t then settled_table else table
]
