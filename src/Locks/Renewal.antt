-- ===== src/Locks/Renewal.antt =====
-- What a run has after `acquire_locks`, and what a late heartbeat does
-- (`acquire_locks` and `renew_run_locks` of backend/app/services/orchestration.py).
use open_slt.Prelude.{ℕ, ◌+◌, ◌<◌, true, false, ◌≡◌, ◌≢◌, ◌∙◌, List, mem, ℕ_discrete, arith}
use open_slt.Domain.{ResourceLock}
use open_slt.Locks.{add_locks, acquire_locks, renew_run_locks, lease_seconds}
use open_slt.Locks.Holders.{
  add_locks-holds, holds, owns, holds-renew, add_locks-mem, add_locks-owns, add_locks_lapsed,
}

acquired_cases :
    (now p minutes : ℕ) (ids : List ℕ) (locks : List ResourceLock)
    → (acquire_locks now p ids minutes locks).0.0 ≡ true
    → (acquire_locks now p ids minutes locks).1
      ≡ add_locks (now + lease_seconds minutes) p ids locks
unfolding acquire_locks
acquired_cases now p minutes ids locks h = ground arith

-- A successful acquisition with a lease of at least a minute gives the run every resource that it
-- asked for and has not let lapse, and takes nothing from anybody: who held a resource still does.
pub acquire_locks-holds :
    (now p minutes : ℕ) (ids : List ℕ) (locks : List ResourceLock)
    → 0 < minutes
    → (acquire_locks now p ids minutes locks).0.0 ≡ true
    → let after = (acquire_locks now p ids minutes locks).1 in
      ((r : ℕ)
        → mem ℕ_discrete r ids ≡ true
        → (owns r p locks ≡ true → holds now r p locks ≡ true)
        → holds now r p after ≡ true)
      × ((r q : ℕ) → holds now r q locks ≡ true → holds now r q after ≡ true)
acquire_locks-holds now p minutes ids locks m h = rw (acquired_cases now p minutes ids locks h) (
  λ r i k. add_locks-mem now (now + lease_seconds minutes) p ids locks r (omega arith) k i,
  λ r q k. add_locks-holds now (now + lease_seconds minutes) p ids locks r q k,
)

-- A lock that has lapsed and was never released is not renewed by acquiring its resource again:
-- `acquire_locks` succeeds, and the run still does not hold the resource.
pub acquire_locks_lapsed :
    (now p minutes : ℕ) (ids : List ℕ) (locks : List ResourceLock) (r : ℕ)
    → owns r p locks ≡ true
    → holds now r p locks ≡ false
    → (acquire_locks now p ids minutes locks).0.0 ≡ true
    → holds now r p (acquire_locks now p ids minutes locks).1 ≡ false
acquire_locks_lapsed now p minutes ids locks r o h a =
    rw (acquired_cases now p minutes ids locks a)
      (add_locks_lapsed now (now + lease_seconds minutes) p ids locks r o h)

-- A heartbeat that comes after the lease has lapsed breaks the exclusion: where run `p` has an
-- unreleased lock on a resource and run `q` has nevertheless acquired the resource, renewing the
-- locks of `p` leaves both runs holding it.
pub renew_run_locks_late :
    (now p q minutes : ℕ) (ids : List ℕ) (locks : List ResourceLock) (r : ℕ)
    → 0 < minutes
    → p ≢ q
    → owns r p locks ≡ true
    → (acquire_locks now q ids minutes locks).0.0 ≡ true
    → mem ℕ_discrete r ids ≡ true
    → (owns r q locks ≡ true → holds now r q locks ≡ true)
    → let after = (renew_run_locks now p minutes (acquire_locks now q ids minutes locks).1).1 in
      (holds now r p after ≡ true) × (holds now r q after ≡ true)
unfolding renew_run_locks
renew_run_locks_late now p q minutes ids locks r m n o a i k = (
  holds-renew now (now + lease_seconds minutes) p _ r p ∙ ground (arith, owned),
  holds-renew now (now + lease_seconds minutes) p _ r q
      ∙ ground (arith, (acquire_locks-holds now q minutes ids locks m a).0 r i k),
)
  where
    owned : owns r p (acquire_locks now q ids minutes locks).1 ≡ true
    owned = rw (acquired_cases now q minutes ids locks a) (add_locks-owns _ q ids locks r p o)
