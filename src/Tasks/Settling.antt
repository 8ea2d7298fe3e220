-- ===== src/Tasks/Settling.antt =====
-- How an attempt ends (`execute_claimed_task` of backend/app/services/durable_tasks.py).
use open_slt.Prelude.{
  ℕ, ◌+◌, ◌^◌, ◌≤◌, ◌<◌, true, false, ◌≡◌, ◌&&◌, Option, none, some, arith, find, find-some,
  find-update_where_taken, dec_le,
}
use native.Mathlib.Nat.{one-le-pow}
use open_slt.Errors.{Error}
use open_slt.Domain.{TaskStatus, DurableTask}
use open_slt.Tasks.{TaskTable, has_id}
use open_slt.Tasks.Claim.{claimable, owned_by}
use open_slt.Tasks.Execution.{settled, settle_task}

pow_pos : (n : ℕ) → 0 < 2 ^ n
pow_pos n = one-le-pow n 2 (omega arith)

-- What becomes of a task whose attempt raised.
pub data AfterFailure (now : ℕ) (t t' : DurableTask) : Type 0 where
  given_up :
      t.max_attempts ≤ t.attempts
      → t'.status ≡ TaskStatus.failed
      → ((later : ℕ) → claimable later t' ≡ false)
      → AfterFailure now t t'
  retried :
      t.attempts < t.max_attempts
      → now < t'.available_at
      → t'.available_at ≤ now + 60
      → claimable t'.available_at t' ≡ true
      → AfterFailure now t t'

settled-AfterFailure :
    (now : ℕ) (e : Error) (t : DurableTask) → AfterFailure now t (settled now (some e) t)
unfolding settled claimable
settled-AfterFailure now e t = elim (dec_le t.max_attempts t.attempts) [
  | yes h ↦ given_up h (ground arith) (λ later. ground arith)
  | no h ↦
      retried (omega arith) (ground (arith, pow_pos t.attempts)) (ground arith)
        (ground (arith, pow_pos t.attempts))
]

same_row :
    (now : ℕ) (e : Option Error) (i : ℕ) (t : DurableTask) → has_id i (settled now e t) ≡ has_id i t
unfolding settled
same_row now e i t = ground arith

-- The attempt of the worker that has the task has raised. The task then has no worker, has been tried
-- as often as before and records the exception. It is given up for good, never to be claimed again,
-- if it has been tried as often as allowed; otherwise it cannot run at once, and can be claimed
-- again after at most a minute.
pub settle_task-AfterFailure :
    (now i w : ℕ) (e : Error) (t : DurableTask) (table : TaskTable)
    → find (has_id i) table.rows ≡ some t
    → owned_by w t ≡ true
    → (t' : DurableTask) × (find (has_id i) (settle_task now i w (some e) table).rows ≡ some t')
      × AfterFailure now t t'
      × (t'.attempts ≡ t.attempts)
      × (t'.locked_by ≡ none)
      × (t'.last_error ≡ some e)
unfolding settle_task
settle_task-AfterFailure now i w e t table f o = (
  settled now (some e) t,
  find-update_where_taken (has_id i) (λ u. has_id i u && owned_by w u) (settled now (some e))
      (same_row now (some e) i) table.rows t (ground (arith, find-some (has_id i) table.rows t f))
      f,
  settled-AfterFailure now e t,
  unfold settled in ground arith,
  unfold settled in ground arith,
  unfold settled in ground arith,
)
