-- ===== src/Locks/Exclusion.antt =====
-- Which runs hold one resource, and the steps that change it (the lock functions of
-- backend/app/services/orchestration.py, and the passing of time between their calls).
use open_slt.Prelude.{ℕ, ◌+◌, String, true, ◌≡◌, refl, List, [], ◌∷◌, arith}
use open_slt.Domain.{ResourceLock}
use open_slt.Locks.{
  conflicts, add_locks, acquired_or, acquire_locks, release_locks, renew_run_locks,
  reclaim_expired_locks, lease_seconds,
}
use open_slt.Locks.Holders.{
  holds, owns, holds_earlier, conflicts_nil, holds-add_locks, holds-release, holds-reclaim,
  holds-renew,
}

-- Two runs that hold the same resource at the instant `now` are the same run.
abbrev pub IsExclusive : ℕ → List ResourceLock → Type 0
IsExclusive now locks =
    (r p q : ℕ) → holds now r p locks ≡ true → holds now r q locks ≡ true → p ≡ q

-- The clock and the table of locks.
pub record LockState : Type 0 where
  pub now : ℕ
  pub locks : List ResourceLock

-- What the program and time can do to the locks. A heartbeat renews the locks of a run that has let
-- none of them lapse.
pub data LockStep : LockState → LockState → Type 0 where
  acquire :
      (s : LockState) (run_id : ℕ) (ids : List ℕ) (minutes : ℕ)
      → LockStep s (record s { locks = (acquire_locks s.now run_id ids minutes s.locks).1 })
  release :
      (s : LockState) (run_id : ℕ) (reason : String)
      → LockStep s (record s { locks = (release_locks s.now run_id reason s.locks).1 })
  reclaim :
      (s : LockState) → LockStep s (record s { locks = (reclaim_expired_locks s.now s.locks).1 })
  renew :
      (s : LockState) (run_id minutes : ℕ)
      → ((r : ℕ) → owns r run_id s.locks ≡ true → holds s.now r run_id s.locks ≡ true)
      → LockStep s (record s { locks = (renew_run_locks s.now run_id minutes s.locks).1 })
  wait : (s : LockState) (seconds : ℕ) → LockStep s (record s { now = s.now + seconds })

pub data LockSteps (s : LockState) : LockState → Type 0 where
  here : LockSteps s s
  next : {t u : LockState} → LockSteps s t → LockStep t u → LockSteps s u

acquired_or-IsExclusive :
    (now expires p : ℕ) (ids : List ℕ) (locks : List ResourceLock) (c : List ℕ)
    → conflicts now p ids locks ≡ c
    → IsExclusive now locks
    → IsExclusive now (acquired_or c locks (add_locks expires p ids locks)).1
unfolding acquired_or
acquired_or-IsExclusive now expires p ids locks (x ∷ c) e h = h
acquired_or-IsExclusive now expires p ids locks [] e h = λ r a b ha hb. ground (
  arith,
  holds-add_locks now expires p ids locks r a ha,
  holds-add_locks now expires p ids locks r b hb,
  conflicts_nil now p ids locks r a e,
  conflicts_nil now p ids locks r b e,
  h r a b,
)

LockStep-IsExclusive :
    {s t : LockState} → LockStep s t → IsExclusive s.now s.locks → IsExclusive t.now t.locks
unfolding acquire_locks release_locks renew_run_locks reclaim_expired_locks
LockStep-IsExclusive (acquire s p ids minutes) h =
    acquired_or-IsExclusive s.now _ p ids s.locks (conflicts s.now p ids s.locks) refl h
LockStep-IsExclusive (release s p reason) h = λ r a b. ground (
  arith,
  holds-release s.now s.now p reason s.locks r a,
  holds-release s.now s.now p reason s.locks r b,
  h r a b,
)
LockStep-IsExclusive (reclaim s) h = λ r a b.
    ground
      (arith, holds-reclaim s.now s.now s.locks r a, holds-reclaim s.now s.now s.locks r b, h r a b)
LockStep-IsExclusive (renew s p minutes k) h = λ r a b. ground (
  arith,
  holds-renew s.now (s.now + lease_seconds minutes) p s.locks r a,
  holds-renew s.now (s.now + lease_seconds minutes) p s.locks r b,
  h r a b,
  k r,
)
LockStep-IsExclusive (wait s d) h = λ r a b ha hb.
    h r a b (holds_earlier s.now (s.now + d) r a s.locks (omega arith) ha)
      (holds_earlier s.now (s.now + d) r b s.locks (omega arith) hb)

-- Whatever acquisitions, releases, reclaims and delays follow one another, in any order and for any
-- runs, and whatever heartbeats of runs that have let no lock lapse: if at the start no resource is
-- held by two runs, no resource is held by two runs afterwards.
pub LockSteps-IsExclusive :
    {s t : LockState} → LockSteps s t → IsExclusive s.now s.locks → IsExclusive t.now t.locks
LockSteps-IsExclusive here h = h
LockSteps-IsExclusive (next r st) h = LockStep-IsExclusive st (LockSteps-IsExclusive r h)
