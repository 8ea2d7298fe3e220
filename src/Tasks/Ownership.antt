-- ===== src/Tasks/Ownership.antt =====
-- Who may claim, end or renew a claimed task (backend/app/services/durable_tasks.py).
use open_slt.Prelude.{
  ℕ, ◌+◌, ◌≤◌, ◌<◌, ◌==◌, ==_iff, if◌then◌else◌, Bool, true, false, ◌≡◌, ◌≢◌, ◌&&◌, refl, Option,
  some, List, [], ◌∷◌, arith, count_if, update_where, Bool-cases, inl, inr,
}
use open_slt.Errors.{Error}
use open_slt.Domain.{DurableTask}
use open_slt.Tasks.{TaskTable, has_id}
use open_slt.Tasks.Claim.{claimable, claimed, claims, claim_task, renew_task_lease, owned_by}
use open_slt.Tasks.Execution.{settle_task, settled}
use open_slt.Tasks.Invariant.{TableIsSound}

-- nothing of the number is selected, so nothing changes
unselected :
    (p : DurableTask → Bool) (f : DurableTask → DurableTask) (rows : List DurableTask)
    → count_if p rows ≡ 0
    → update_where p f rows ≡ rows
unselected p f [] h = refl
unselected p f (t ∷ ts) h = ground (arith, unselected p f ts)

absent_claims :
    (now i : ℕ) (rows : List DurableTask)
    → count_if (has_id i) rows ≡ 0
    → (count_if (claims now i) rows ≡ 0)
absent_claims now i [] h = refl
absent_claims now i (t ∷ ts) h = ground (arith, absent_claims now i ts)

claimed_leased :
    (now later i w lease : ℕ) (t : DurableTask)
    → later < now + lease
    → claims later i (claimed now w lease t) ≡ false
unfolding claimable claimed
claimed_leased now later i w lease t l = ground arith

-- once claimed, the only row of the number is leased until the lease is over
claimed_once :
    (now later i w lease : ℕ) (rows : List DurableTask)
    → count_if (has_id i) rows ≤ 1
    → count_if (claims now i) rows ≡ 1
    → later < now + lease
    → count_if (claims later i) (update_where (claims now i) (claimed now w lease) rows) ≡ 0
claimed_once now later i w lease [] u c l = ground arith
claimed_once now later i w lease (t ∷ ts) u c l = elim (Bool-cases (claims now i t)) [
  | inl b ↦
      let gone : count_if (has_id i) ts ≡ 0 = ground arith in
      rw b (
        rw
          (
            claimed_leased now later i w lease t l,
            unselected (claims now i) (claimed now w lease) ts (absent_claims now i ts gone),
          )
          (absent_claims later i ts gone))
  | inr b ↦ ground (arith, b, absent_claims now i ts, claimed_once now later i w lease ts)
]

unclaimed :
    (later i v lease : ℕ) (table : TaskTable)
    → count_if (claims later i) table.rows ≡ 0
    → claim_task later i v lease table ≡ (false, table)
unfolding claim_task
unclaimed later i v lease table z =
    rw (z, unselected (claims later i) (claimed later v lease) table.rows z) refl

-- A task that a worker has claimed cannot be claimed again, by any worker, before its lease is over:
-- such a claim fails and changes nothing.
pub claim_task_exclusive :
    (now later i w v lease lease' : ℕ) (table : TaskTable)
    → TableIsSound table
    → (claim_task now i w lease table).0 ≡ true
    → later < now + lease
    → claim_task later i v lease' (claim_task now i w lease table).1
      ≡ (false, (claim_task now i w lease table).1)
claim_task_exclusive now later i w v lease lease' table h c l =
    unclaimed later i v lease' (claim_task now i w lease table).1 (
      unfold claim_task in
      claimed_once now later i w lease table.rows (h.one_id i)
        ((==_iff _ 1).0 (unfold claim_task in c)) l)

-- the rows that the worker may renew or settle
abbrev owns_task : ℕ → ℕ → DurableTask → Bool
owns_task i v t = has_id i t && owned_by v t

absent_owner :
    (i v : ℕ) (rows : List DurableTask)
    → count_if (has_id i) rows ≡ 0
    → (count_if (owns_task i v) rows ≡ 0)
absent_owner i v [] h = refl
absent_owner i v (t ∷ ts) h = ground (arith, absent_owner i v ts)

claimed_owner :
    (now i w v lease : ℕ) (t : DurableTask)
    → owns_task i v (claimed now w lease t) ≡ has_id i t && w == v
unfolding claimed
claimed_owner now i w v lease t = ground arith

owner_of_claimed :
    (now i w v lease : ℕ) (rows : List DurableTask)
    → count_if (has_id i) rows ≤ 1
    → count_if (claims now i) rows ≡ 1
    → count_if (owns_task i v) (update_where (claims now i) (claimed now w lease) rows)
      ≡ (if w == v then 1 else 0)
owner_of_claimed now i w v lease [] u c = ground arith
owner_of_claimed now i w v lease (t ∷ ts) u c = elim (Bool-cases (claims now i t)) [
  | inl b ↦
      let gone : count_if (has_id i) ts ≡ 0 = ground arith in
      rw b (
        rw
          (
            claimed_owner now i w v lease t,
            unselected (claims now i) (claimed now w lease) ts (absent_claims now i ts gone),
            absent_owner i v ts gone,
          )
          (ground arith))
  | inr b ↦ ground (arith, b, absent_claims now i ts, owner_of_claimed now i w v lease ts)
]

not_owned_renew :
    (later i v lease : ℕ) (table : TaskTable)
    → count_if (owns_task i v) table.rows ≡ 0
    → renew_task_lease later i v lease table ≡ (false, table)
unfolding renew_task_lease
not_owned_renew later i v lease table z =
    rw
      (
        z,
        unselected (owns_task i v) (λ t. record t { lease_expires_at = some (later + lease) })
            table.rows z,
      )
      refl

not_owned_settle :
    (later i v : ℕ) (e : Option Error) (table : TaskTable)
    → count_if (owns_task i v) table.rows ≡ 0
    → settle_task later i v e table ≡ table
unfolding settle_task
not_owned_settle later i v e table z =
    rw (unselected (owns_task i v) (settled later e) table.rows z) refl

-- After a worker has claimed a task, only that worker can end it or extend its lease: for any other
-- worker `renew_task_lease` fails, and it and the end of `execute_claimed_task` change nothing; for
-- the worker itself `renew_task_lease` succeeds.
pub claim_task_owner :
    (now later i w v lease lease' : ℕ) (e : Option Error) (table : TaskTable)
    → TableIsSound table
    → (claim_task now i w lease table).0 ≡ true
    → v ≢ w
    → let after = (claim_task now i w lease table).1 in
      (renew_task_lease later i v lease' after ≡ (false, after))
      × (settle_task later i v e after ≡ after)
      × ((renew_task_lease later i w lease' after).0 ≡ true)
unfolding claim_task renew_task_lease settle_task
claim_task_owner now later i w v lease lease' e table h c n = (
  not_owned_renew later i v lease' _ none_of_v,
  not_owned_settle later i v e _ none_of_v,
  rw (owner w) (ground arith),
)
  where
    won : count_if (claims now i) table.rows ≡ 1
    won = (==_iff (count_if (claims now i) table.rows) 1).0 c

    owner :
        (u : ℕ)
        → count_if (owns_task i u) (claim_task now i w lease table).1.rows
          ≡ (if w == u then 1 else 0)
    owner u = owner_of_claimed now i w u lease table.rows (h.one_id i) won

    none_of_v : count_if (owns_task i v) (claim_task now i w lease table).1.rows ≡ 0
    none_of_v = rw (owner v) (ground arith)
