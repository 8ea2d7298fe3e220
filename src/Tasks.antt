-- ===== src/Tasks.antt =====
-- The durable task queue of backend/app/services/durable_tasks.py, on the rows of
-- `t_durable_tasks`: the table and `enqueue_task`. A function takes the instant that `beijing_now()`
-- gives it, and lease lengths in seconds; the database numbers a new row by `next_id`.
pub mod Claim
pub mod Recovery
pub mod Execution
pub mod Invariant
pub mod Steps
pub mod Ownership
pub mod Exhausted
pub mod Settling
pub mod Idempotence
use open_slt.Prelude.{
  ℕ, zero, suc, ◌+◌, ◌^◌, ◌<◌, min, Bool, true, false, not, ◌&&◌, ◌||◌, Option, none, some, List,
  [], ◌∷◌, ◌++◌, map, if◌then◌else◌, ltb, leb, ◌==◌, is_none, is_some, same, mem, any, find, select,
  count_if, update_where, modify_first, take, ℕ_discrete,
}
use open_slt.Status.{resource_queue, RunStatus-discrete, terminal_run_statuses}
use open_slt.Errors.{Error, value_error, Result, ok, raised}
use open_slt.Domain.{
  TaskType, TaskType-discrete, start_run, other_type, TaskStatus, TaskStatus-discrete, queued,
  IdempotencyKey, IdempotencyKey-discrete, recovery_start_run_key, Payload, DurableTask, TestRun,
}

pub record TaskTable : Type 0 where
  pub rows : List DurableTask
  pub next_id : ℕ

abbrev pub has_status : TaskStatus → DurableTask → Bool
has_status s t = same TaskStatus-discrete t.status s

-- `task_type in TASK_TYPES`.
unfoldable pub is_supported : TaskType → Bool
is_supported (other_type _) = false
is_supported _ = true

abbrev pub has_key : IdempotencyKey → DurableTask → Bool
has_key k t = same IdempotencyKey-discrete t.idempotency_key k

abbrev pub has_id : ℕ → DurableTask → Bool
has_id i t = t.id == i

-- The arguments of `enqueue_task`.
pub record Enqueue : Type 0 where
  pub task_type : TaskType
  pub payload : Payload
  pub idempotency_key : IdempotencyKey
  pub max_attempts : ℕ
  pub available_at : Option ℕ
  pub reactivate : Bool

-- `available_at or beijing_now()`.
abbrev pub or_now : ℕ → Option ℕ → ℕ
or_now now none = now
or_now now (some t) = t

-- What `enqueue_task` does to the row that already has the key.
pub touch_existing : ℕ → Enqueue → DurableTask → DurableTask
touch_existing now e t =
    let run_id = (if is_none t.run_id then e.payload.run_id else t.run_id) in
    if e.reactivate && (has_status TaskStatus.succeeded t || has_status TaskStatus.failed t)
    then (record t {
      run_id = run_id;
      status = queued;
      attempts = 0;
      available_at = or_now now e.available_at;
      lease_expires_at = none;
      locked_by = none;
      last_error = none;
      finished_at = none;
    })
    else (record t { run_id = run_id })

pub new_task : ℕ → ℕ → Enqueue → DurableTask
new_task now id e = record {
  id = id;
  task_type = e.task_type;
  payload = e.payload;
  run_id = e.payload.run_id;
  idempotency_key = e.idempotency_key;
  status = queued;
  attempts = 0;
  max_attempts = e.max_attempts;
  available_at = or_now now e.available_at;
  lease_expires_at = none;
  locked_by = none;
  last_error = none;
  started_at = none;
  finished_at = none;
}

pub insert_or_touch : ℕ → Enqueue → Option DurableTask → TaskTable → Result DurableTask × TaskTable
unfolding touch_existing new_task
insert_or_touch now e (some t) table = (
  ok (touch_existing now e t),
  record table {
    rows = modify_first (has_key e.idempotency_key) (touch_existing now e) table.rows;
  },
)
insert_or_touch now e none table = (
  ok (new_task now table.next_id e),
  record table {
    rows = table.rows ++ new_task now table.next_id e ∷ [];
    next_id = table.next_id + 1;
  },
)

unfoldable pub enqueue_task : ℕ → Enqueue → TaskTable → Result DurableTask × TaskTable
unfolding is_supported insert_or_touch
enqueue_task now e table =
    if not (is_supported e.task_type)
    then (raised value_error, table)
    else insert_or_touch now e (find (has_key e.idempotency_key) table.rows) table
