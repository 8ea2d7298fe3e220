-- ===== src/Tasks/Claim.antt =====
-- `_claimable`, `claim_task`, `claim_due_tasks` and `renew_task_lease` of
-- backend/app/services/durable_tasks.py.
use open_slt.Prelude.{
  ℕ, ◌+◌, Bool, false, ◌&&◌, ◌||◌, Option, none, some, List, [], ◌∷◌, map, if◌then◌else◌, ltb, leb,
  ◌==◌, select, count_if, update_where, take,
}
use open_slt.Domain.{TaskStatus, queued, DurableTask}
use open_slt.Tasks.{TaskTable, has_status, has_id}

-- `lease_expires_at.is_not(None) and lease_expires_at <= now`.
abbrev pub lease_over : ℕ → Option ℕ → Bool
lease_over now none = false
lease_over now (some t) = leb t now

unfoldable pub claimable : ℕ → DurableTask → Bool
claimable now t =
    ltb t.attempts t.max_attempts
    && leb t.available_at now
    && (has_status queued t
        || (has_status TaskStatus.running t && lease_over now t.lease_expires_at))

unfoldable pub claimed : ℕ → ℕ → ℕ → DurableTask → DurableTask
claimed now worker lease t = record t {
  status = TaskStatus.running;
  attempts = t.attempts + 1;
  locked_by = some worker;
  lease_expires_at = some (now + lease);
  started_at = some now;
  finished_at = none;
}

abbrev pub claims : ℕ → ℕ → DurableTask → Bool
claims now id t = has_id id t && claimable now t

-- The result says whether the worker has the task: `result.rowcount == 1`.
unfoldable pub claim_task : ℕ → ℕ → ℕ → ℕ → TaskTable → Bool × TaskTable
unfolding claimable claimed
claim_task now id worker lease table = (
  count_if (claims now id) table.rows == 1,
  record table { rows = update_where (claims now id) (claimed now worker lease) table.rows },
)

-- `order_by(available_at, id)`.
due_before : DurableTask → DurableTask → Bool
due_before a b =
    ltb a.available_at b.available_at || (a.available_at == b.available_at && leb a.id b.id)

insert_due : DurableTask → List DurableTask → List DurableTask
unfolding due_before
insert_due t [] = t ∷ []
insert_due t (u ∷ us) =
    let later = insert_due t us in if due_before t u then t ∷ u ∷ us else u ∷ later

order_due : List DurableTask → List DurableTask
unfolding insert_due
order_due [] = []
order_due (t ∷ ts) = insert_due t (order_due ts)

task_id : DurableTask → ℕ
task_id t = t.id

unfoldable pub due_ids : ℕ → ℕ → TaskTable → List ℕ
unfolding order_due task_id claimable
due_ids now limit table = map task_id (take limit (order_due (select (claimable now) table.rows)))

unfoldable pub claim_each : ℕ → ℕ → ℕ → List ℕ → TaskTable → List ℕ × TaskTable
unfolding claim_task
claim_each now worker lease [] table = ([], table)
claim_each now worker lease (i ∷ is) table =
    let (won, t') = claim_task now i worker lease table in
    let (rest, t'') = claim_each now worker lease is t' in (if won then i ∷ rest else rest, t'')

unfoldable pub claim_due_tasks : ℕ → ℕ → ℕ → ℕ → TaskTable → List ℕ × TaskTable
unfolding due_ids claim_each
claim_due_tasks now limit worker lease table =
    claim_each now worker lease (due_ids now limit table) table

-- The worker still has the task: running, and locked by it.
abbrev pub owned_by : ℕ → DurableTask → Bool
owned_by worker t =
    has_status TaskStatus.running t && elim t.locked_by [ none ↦ false | some w ↦ w == worker ]

unfoldable pub renew_task_lease : ℕ → ℕ → ℕ → ℕ → TaskTable → Bool × TaskTable
renew_task_lease now id worker lease table = (
  count_if (λ t. has_id id t && owned_by worker t) table.rows == 1,
  record table {
    rows =
        update_where (λ t. has_id id t && owned_by worker t)
          (λ t. record t { lease_expires_at = some (now + lease) }) table.rows;
  },
)
