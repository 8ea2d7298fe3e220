-- ===== src/Tasks/Idempotence.antt =====
-- Two calls of `enqueue_task` of backend/app/services/durable_tasks.py with one key.
use open_slt.Prelude.{
  ℕ, true, ◌≡◌, refl, ap, Option, none, some, arith, length, find, find-modify_first,
  find-append_new, length-modify_first,
}
use open_slt.Errors.{Result, ok, raised}
use open_slt.Domain.{IdempotencyKey, DurableTask}
use open_slt.Tasks.{
  TaskTable, Enqueue, has_key, is_supported, touch_existing, new_task, insert_or_touch,
  enqueue_task,
}

abbrev pub task_number : Result DurableTask → Option ℕ
task_number (ok t) = some t.id
task_number (raised _) = none

keeps_key :
    (now : ℕ) (e : Enqueue) (t : DurableTask) (k : IdempotencyKey)
    → has_key k (touch_existing now e t) ≡ has_key k t
unfolding touch_existing
keeps_key now e t k = ground arith

keeps_id : (now : ℕ) (e : Enqueue) (t : DurableTask) → (touch_existing now e t).id ≡ t.id
unfolding touch_existing
keeps_id now e t = ground arith

new_key : (now i : ℕ) (e : Enqueue) → has_key e.idempotency_key (new_task now i e) ≡ true
unfolding new_task
new_key now i e = ground arith

-- after the first call the key is there, with the task that the call returned
enqueued :
    (now : ℕ) (e : Enqueue) (table : TaskTable) (o : Option DurableTask)
    → find (has_key e.idempotency_key) table.rows ≡ o
    → (t : DurableTask) × ((insert_or_touch now e o table).0 ≡ ok t)
      × (find (has_key e.idempotency_key) (insert_or_touch now e o table).1.rows ≡ some t)
unfolding insert_or_touch
enqueued now e table (some t) f = (
  touch_existing now e t,
  refl,
  find-modify_first (has_key e.idempotency_key) (touch_existing now e)
      (λ u. keeps_key now e u e.idempotency_key) table.rows t f,
)
enqueued now e table none f = (
  new_task now table.next_id e,
  refl,
  find-append_new (has_key e.idempotency_key) table.rows (new_task now table.next_id e)
      (new_key now table.next_id e) f,
)

supported :
    (now : ℕ) (e : Enqueue) (table : TaskTable)
    → is_supported e.task_type ≡ true
    → enqueue_task now e table
      ≡ insert_or_touch now e (find (has_key e.idempotency_key) table.rows) table
unfolding enqueue_task
supported now e table s = rw s refl

touched :
    (later : ℕ) (e' : Enqueue) (after : TaskTable) (t : DurableTask)
    → is_supported e'.task_type ≡ true
    → find (has_key e'.idempotency_key) after.rows ≡ some t
    → (task_number (enqueue_task later e' after).0 ≡ some t.id)
      × (length (enqueue_task later e' after).1.rows ≡ length after.rows)
      × ((enqueue_task later e' after).1.next_id ≡ after.next_id)
touched later e' after t s f =
    rw (supported later e' after s, f)
      (unfold insert_or_touch in
        (
          ap some (keeps_id later e' t),
          length-modify_first (has_key e'.idempotency_key) (touch_existing later e') after.rows,
          refl,
        ))

-- Two calls of `enqueue_task` with one key, at any instants and with whatever other arguments, and
-- whether they reactivate or not: the second returns the task of the first and adds no row.
pub enqueue_task_twice :
    (now later : ℕ) (e e' : Enqueue) (table : TaskTable)
    → is_supported e.task_type ≡ true
    → is_supported e'.task_type ≡ true
    → e'.idempotency_key ≡ e.idempotency_key
    → let (r, after) = enqueue_task now e table in
      let (r', after') = enqueue_task later e' after in
      (task_number r' ≡ task_number r)
      × (length after'.rows ≡ length after.rows)
      × (after'.next_id ≡ after.next_id)
enqueue_task_twice now later e e' table s s' k =
    let (t, r, f) = enqueued now e table (find (has_key e.idempotency_key) table.rows) refl in
    rw (supported now e table s, r) (touched later e' _ t s' (rw k f))
