-- ===== src/Tasks/Invariant.antt =====
-- The sound task tables, and each operation on them: backend/app/services/durable_tasks.py.
use open_slt.Prelude.{
  ℕ, ◌+◌, ◌≤◌, ◌<◌, Bool, true, ◌≡◌, ◌≢◌, refl, Option, none, some, List, [], ◌∷◌, arith, if-both,
  All, is_some, not, find, count_if, update_where, All-append, All-map_weaken, All-update_where,
  All-modify_first, count_if-append, count_if-update_where, count_if-modify_first, find-none,
  Bool-cases, inl, inr,
}
use open_slt.Errors.{Error}
use open_slt.Domain.{TaskStatus, IdempotencyKey, DurableTask, TestRun}
use open_slt.Tasks.{
  TaskTable, Enqueue, has_id, has_key, is_supported, touch_existing, new_task, insert_or_touch,
  enqueue_task,
}
use open_slt.Tasks.Claim.{claimable, claimed, claims, claim_task, renew_task_lease}
use open_slt.Tasks.Recovery.{
  recover_abandoned_tasks, requeue_abandoned, enqueue_queued, requeued, recovery, is_abandoned,
}
use open_slt.Tasks.Execution.{settled, settle_task}

-- A task has been tried at most as often as allowed. A running one has been tried, and has a worker
-- and a lease; no other has either.
pub record RowIsSound (t : DurableTask) : Type 0 where
  pub tried : t.attempts ≤ t.max_attempts
  pub leased :
      t.status ≡ TaskStatus.running
      → (is_some t.locked_by ≡ true) × (is_some t.lease_expires_at ≡ true) × (0 < t.attempts)
  pub idle : t.status ≢ TaskStatus.running → (t.locked_by ≡ none) × (t.lease_expires_at ≡ none)

pub record TableIsSound (table : TaskTable) : Type 0 where
  pub rows_sound : All RowIsSound table.rows
  pub numbered : All (λ t. t.id < table.next_id) table.rows
  pub one_id : (i : ℕ) → count_if (has_id i) table.rows ≤ 1
  pub one_key : (k : IdempotencyKey) → count_if (has_key k) table.rows ≤ 1

-- A change of the rows that a condition selects, which keeps their names, keeps the table sound.
module _ (p : DurableTask → Bool) (f : DurableTask → DurableTask)
    (same_id : (t : DurableTask) → (f t).id ≡ t.id)
    (same_key : (t : DurableTask) → (f t).idempotency_key ≡ t.idempotency_key) where
  update_where-TableIsSound :
      ((t : DurableTask) → p t ≡ true → RowIsSound t → RowIsSound (f t))
      → (table : TaskTable) → TableIsSound table
      → TableIsSound (record table { rows = update_where p f table.rows })
  update_where-TableIsSound keep table h = record {
    rows_sound = All-update_where RowIsSound p f keep table.rows h.rows_sound;
    numbered =
        All-update_where (λ t. t.id < table.next_id) p f (λ t _ k. rw (same_id t) k) table.rows
          h.numbered;
    one_id = λ i.
        rw (count_if-update_where (has_id i) p f (λ t. rw (same_id t)) table.rows) (h.one_id i);
    one_key = λ k.
        rw (count_if-update_where (has_key k) p f (λ t. rw (same_key t)) table.rows) (h.one_key k);
  }

claimed-RowIsSound :
    (now w lease : ℕ) (t : DurableTask)
    → claimable now t ≡ true
    → RowIsSound t
    → RowIsSound (claimed now w lease t)
unfolding claimable claimed
claimed-RowIsSound now w lease t c h = ground arith

requeued-RowIsSound : (now : ℕ) (t : DurableTask) → RowIsSound t → RowIsSound (requeued now t)
unfolding requeued
requeued-RowIsSound now t h = ground arith

settled-RowIsSound :
    (now : ℕ) (e : Option Error) (t : DurableTask) → RowIsSound t → RowIsSound (settled now e t)
unfolding settled
settled-RowIsSound now e t h = ground arith

touch_existing-RowIsSound :
    (now : ℕ) (e : Enqueue) (t : DurableTask) → RowIsSound t → RowIsSound (touch_existing now e t)
unfolding touch_existing
touch_existing-RowIsSound now e t h = ground arith

new_task-RowIsSound : (now id : ℕ) (e : Enqueue) → RowIsSound (new_task now id e)
unfolding new_task
new_task-RowIsSound now id e = ground arith

fresh_id :
    (n : ℕ) (rows : List DurableTask) → All (λ t. t.id < n) rows → count_if (has_id n) rows ≡ 0
fresh_id n [] h = refl
fresh_id n (t ∷ ts) h = ground (arith, fresh_id n ts h.1)

insert_or_touch-TableIsSound :
    (now : ℕ) (e : Enqueue) (o : Option DurableTask) (table : TaskTable)
    → find (has_key e.idempotency_key) table.rows ≡ o
    → TableIsSound table
    → TableIsSound (insert_or_touch now e o table).1
unfolding insert_or_touch
insert_or_touch-TableIsSound now e (some t) table f h = record {
  rows_sound =
      All-modify_first RowIsSound _ (touch_existing now e) (touch_existing-RowIsSound now e)
        table.rows h.rows_sound;
  numbered =
      All-modify_first (λ t. t.id < table.next_id) _ (touch_existing now e) (λ t k. ground arith)
        table.rows h.numbered;
  one_id = λ i.
      rw
        (count_if-modify_first (has_id i) (has_key e.idempotency_key) (touch_existing now e)
          (λ t. ground arith) table.rows)
        (h.one_id i);
  one_key = λ k.
      rw
        (count_if-modify_first (has_key k) (has_key e.idempotency_key) (touch_existing now e)
          (λ t. ground arith) table.rows)
        (h.one_key k);
}
insert_or_touch-TableIsSound now e none table f h = record {
  rows_sound =
      All-append RowIsSound table.rows _ h.rows_sound (new_task-RowIsSound now table.next_id e);
  numbered =
      All-append (λ t. t.id < table.next_id + 1) table.rows _
        (All-map_weaken (λ t. t.id < table.next_id) (λ t. t.id < table.next_id + 1)
          (λ t k. omega arith) table.rows h.numbered)
        (omega arith);
  one_id = λ i.
      rw (count_if-append (has_id i) table.rows (new_task now table.next_id e ∷ []))
        (ground (arith, h.one_id i, fresh_id table.next_id table.rows h.numbered));
  one_key = λ k.
      rw (count_if-append (has_key k) table.rows (new_task now table.next_id e ∷ []))
        (ground (arith, h.one_key k, find-none (has_key e.idempotency_key) table.rows f));
}

-- whether it inserts a row, touches one or refuses the type
pub enqueue_task-TableIsSound :
    (now : ℕ) (e : Enqueue) (table : TaskTable)
    → TableIsSound table
    → TableIsSound (enqueue_task now e table).1
unfolding enqueue_task
enqueue_task-TableIsSound now e table h = elim (Bool-cases (not (is_supported e.task_type))) [
  | inl b ↦ rw b h
  | inr b ↦ rw b (insert_or_touch-TableIsSound now e _ table refl h)
]

pub claim_task-TableIsSound :
    (now id w lease : ℕ) (table : TaskTable)
    → TableIsSound table
    → TableIsSound (claim_task now id w lease table).1
unfolding claim_task
claim_task-TableIsSound now id w lease table h =
    update_where-TableIsSound (claims now id) (claimed now w lease) (λ t. refl) (λ t. refl)
      (λ t c. claimed-RowIsSound now w lease t (ground arith)) table h

pub renew_task_lease-TableIsSound :
    (now id w lease : ℕ) (table : TaskTable)
    → TableIsSound table
    → TableIsSound (renew_task_lease now id w lease table).1
unfolding renew_task_lease
renew_task_lease-TableIsSound now id w lease table h =
    update_where-TableIsSound _ _ (λ t. refl) (λ t. refl) (λ t c k. ground arith) table h

pub settle_task-TableIsSound :
    (now id w : ℕ) (e : Option Error) (table : TaskTable)
    → TableIsSound table
    → TableIsSound (settle_task now id w e table)
unfolding settle_task settled
settle_task-TableIsSound now id w e table h =
    update_where-TableIsSound _ (settled now e) (λ t. ground arith) (λ t. ground arith)
      (λ t c. settled-RowIsSound now e t) table h

requeue_abandoned-TableIsSound :
    (now : ℕ) (table : TaskTable) → TableIsSound table → TableIsSound (requeue_abandoned now table)
unfolding requeue_abandoned
requeue_abandoned-TableIsSound now table h =
    update_where-TableIsSound (is_abandoned now) (requeued now) (λ t. refl) (λ t. refl)
      (λ t c. requeued-RowIsSound now t) table h

enqueue_queued-TableIsSound :
    (now : ℕ) (rows : List DurableTask) (runs : List TestRun) (table : TaskTable)
    → TableIsSound table
    → TableIsSound (enqueue_queued now rows runs table)
unfolding enqueue_queued
enqueue_queued-TableIsSound now rows [] table h = h
enqueue_queued-TableIsSound now rows (run ∷ runs) table h =
    enqueue_queued-TableIsSound now rows runs _
      (if-both TableIsSound _ (enqueue_task-TableIsSound now (recovery run) table h) h)

pub recover_abandoned_tasks-TableIsSound :
    (now : ℕ) (runs : List TestRun) (table : TaskTable)
    → TableIsSound table
    → TableIsSound (recover_abandoned_tasks now runs table).1
unfolding recover_abandoned_tasks
recover_abandoned_tasks-TableIsSound now runs table h =
    enqueue_queued-TableIsSound now _ runs _ (requeue_abandoned-TableIsSound now table h)
