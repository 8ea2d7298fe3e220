-- ===== src/Examples/Locking.antt =====
-- The theorems about locks at a table of a few locks.
use open_slt.Prelude.{
  ℕ, ◌+◌, true, false, refl, ◌≡◌, ◌≢◌, ◌⊎◌, ◌↔◌, List, [], ◌∷◌, mem, ℕ_discrete, arith,
}
use open_slt.Domain.{ResourceLock}
use open_slt.Locks.{acquire_locks, conflicts, renew_run_locks}
use open_slt.Locks.Holders.{holds, owns}
use open_slt.Locks.Exclusion.{
  IsExclusive, LockState, LockSteps, here, next, acquire, wait, LockSteps-IsExclusive,
}
use open_slt.Locks.Conflicts.{HeldByOther, acquire_locks-conflicts}
use open_slt.Locks.Renewal.{acquire_locks-holds, acquire_locks_lapsed, renew_run_locks_late}
use open_slt.Examples.{lock_of}

abbrev no_locks : LockState
no_locks = record { now = 0; locks = [] }

-- two runs ask for one resource; the second gets it only once the first has let its lock lapse
abbrev after_first : LockState
after_first = record no_locks { locks = (acquire_locks 0 1 (7 ∷ []) 1 []).1 }

abbrev later_on : LockState
later_on = record after_first { now = 0 + 61 }

abbrev after_second : LockState
after_second = record later_on { locks = (acquire_locks 61 2 (7 ∷ []) 1 later_on.locks).1 }

abbrev history : LockSteps no_locks after_second
history =
    next (next (next here (acquire no_locks 1 (7 ∷ []) 1)) (wait after_first 61))
      (acquire later_on 2 (7 ∷ []) 1)

LockSteps-IsExclusive_example : IsExclusive after_second.now after_second.locks
LockSteps-IsExclusive_example = LockSteps-IsExclusive history (λ r p q h k. cc)

abbrev held : List ResourceLock
held = lock_of 7 1 500 ∷ lock_of 8 2 500 ∷ []

acquire_locks-conflicts_example :
    let r = acquire_locks 100 1 (7 ∷ 8 ∷ []) 1 held in
    ((c : ℕ)
      → (mem ℕ_discrete c r.0.1 ≡ true)
        ↔ ((mem ℕ_discrete c (7 ∷ 8 ∷ []) ≡ true) × HeldByOther 100 1 c held))
    × ((r.0.0 ≡ true) × (r.0.1 ≡ []) ⊎ (r.0.0 ≡ false) × (r.0.1 ≢ []) × (r.1 ≡ held))
acquire_locks-conflicts_example = acquire_locks-conflicts 100 1 1 (7 ∷ 8 ∷ []) held

acquire_locks-holds_example :
    let after = (acquire_locks 100 1 (7 ∷ 9 ∷ []) 180 held).1 in
    ((r : ℕ)
      → mem ℕ_discrete r (7 ∷ 9 ∷ []) ≡ true
      → (owns r 1 held ≡ true → holds 100 r 1 held ≡ true)
      → holds 100 r 1 after ≡ true)
    × ((r q : ℕ) → holds 100 r q held ≡ true → holds 100 r q after ≡ true)
unfolding acquire_locks conflicts ℕ_discrete
acquire_locks-holds_example = acquire_locks-holds 100 1 180 (7 ∷ 9 ∷ []) held (omega arith) refl

-- run 1 has let its lock on 7 lapse
abbrev lapsed : List ResourceLock
lapsed = lock_of 7 1 50 ∷ []

acquire_locks_lapsed_example : holds 100 7 1 (acquire_locks 100 1 (7 ∷ []) 180 lapsed).1 ≡ false
unfolding acquire_locks conflicts ℕ_discrete
acquire_locks_lapsed_example = acquire_locks_lapsed 100 1 180 (7 ∷ []) lapsed 7 refl refl refl

renew_run_locks_late_example :
    let after = (renew_run_locks 100 1 180 (acquire_locks 100 2 (7 ∷ []) 180 lapsed).1).1 in
    (holds 100 7 1 after ≡ true) × (holds 100 7 2 after ≡ true)
unfolding acquire_locks conflicts ℕ_discrete
renew_run_locks_late_example =
    renew_run_locks_late 100 1 2 180 (7 ∷ []) lapsed 7 (omega arith) (λ e. omega arith) refl refl
      refl (λ h. cc)
