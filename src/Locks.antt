-- ===== src/Locks.antt =====
-- Resource locks: `acquire_locks`, `release_locks`, `renew_run_locks` and `reclaim_expired_locks` of
-- backend/app/services/orchestration.py, on the rows of `t_resource_locks`. An operation takes the
-- instant that `beijing_now()` gives it.
pub mod Holders
pub mod Exclusion
pub mod Conflicts
pub mod Renewal
use open_slt.Prelude.{
  ℕ, zero, ◌+◌, ◌*◌, String, Bool, true, false, not, ◌&&◌, Option, none, some, List, [], ◌∷◌, ◌++◌,
  map, if◌then◌else◌, ltb, leb, ◌==◌, is_none, mem, any, select, count_if, length, ℕ_discrete,
}
use open_slt.Domain.{ResourceLock}

-- `released_at.is_(None)`.
abbrev pub is_unreleased : ResourceLock → Bool
is_unreleased l = is_none l.released_at

-- The lock keeps others out at the instant `now`: not released, and `lease_expires_at > now`.
abbrev pub is_active : ℕ → ResourceLock → Bool
is_active now l = is_unreleased l && ltb now l.lease_expires_at

-- `sorted({...})` of a set of numbers.
insert_sorted : ℕ → List ℕ → List ℕ
insert_sorted x [] = x ∷ []
insert_sorted x (y ∷ ys) =
    let later = insert_sorted x ys in
    if x == y then y ∷ ys else if ltb x y then x ∷ y ∷ ys else y ∷ later

unfoldable pub sorted_set : List ℕ → List ℕ
unfolding insert_sorted
sorted_set [] = []
sorted_set (x ∷ xs) = insert_sorted x (sorted_set xs)

resource_of : ResourceLock → ℕ
resource_of l = l.resource_id

-- The active locks on these resources that other runs have.
blocks : ℕ → ℕ → List ℕ → ResourceLock → Bool
blocks now run_id resource_ids l =
    mem ℕ_discrete l.resource_id resource_ids && is_active now l && not (l.run_id == run_id)

unfoldable pub conflicts : ℕ → ℕ → List ℕ → List ResourceLock → List ℕ
unfolding blocks resource_of sorted_set
conflicts now run_id resource_ids locks =
    sorted_set (map resource_of (select (blocks now run_id resource_ids) locks))

abbrev is_own : ℕ → ℕ → ResourceLock → Bool
is_own run_id resource_id l = l.resource_id == resource_id && l.run_id == run_id && is_unreleased l

pub new_lock : ℕ → ℕ → ℕ → ResourceLock
new_lock expires run_id resource_id = record {
  resource_id = resource_id;
  run_id = run_id;
  lease_expires_at = expires;
  released_at = none;
  release_reason = none;
}

-- The loop over the resources: a lock is added where the run has no unreleased one yet.
pub add_locks : ℕ → ℕ → List ℕ → List ResourceLock → List ResourceLock
unfolding new_lock
add_locks expires run_id [] locks = locks
add_locks expires run_id (r ∷ rs) locks =
    add_locks expires run_id rs
      (if any (is_own run_id r) locks then locks else (locks ++ new_lock expires run_id r ∷ []))

abbrev pub lease_seconds : ℕ → ℕ
lease_seconds minutes = minutes * 60

acquired_or : List ℕ → List ResourceLock → List ResourceLock → (Bool × List ℕ) × List ResourceLock
acquired_or [] locks added = ((true, []), added)
acquired_or (c ∷ cs) locks added = ((false, c ∷ cs), locks)

-- The result says whether the run has the resources, and which of them others hold.
unfoldable pub acquire_locks :
    ℕ → ℕ → List ℕ → ℕ → List ResourceLock → (Bool × List ℕ) × List ResourceLock
unfolding acquired_or
acquire_locks now run_id resource_ids lease_minutes locks =
    acquired_or (conflicts now run_id resource_ids locks) locks
      (add_locks (now + lease_seconds lease_minutes) run_id resource_ids locks)

pub release_lock : ℕ → ℕ → String → ResourceLock → ResourceLock
release_lock now run_id reason l =
    if l.run_id == run_id && is_unreleased l
    then (record l { released_at = some now; release_reason = some reason })
    else l

unfoldable pub release_locks : ℕ → ℕ → String → List ResourceLock → ℕ × List ResourceLock
unfolding release_lock
release_locks now run_id reason locks = (
  count_if (λ l. l.run_id == run_id && is_unreleased l) locks,
  map (release_lock now run_id reason) locks,
)

pub renew_lock : ℕ → ℕ → ResourceLock → ResourceLock
renew_lock expires run_id l =
    if l.run_id == run_id && is_unreleased l then (record l { lease_expires_at = expires }) else l

unfoldable pub renew_run_locks : ℕ → ℕ → ℕ → List ResourceLock → ℕ × List ResourceLock
unfolding renew_lock
renew_run_locks now run_id lease_minutes locks = (
  count_if (λ l. l.run_id == run_id && is_unreleased l) locks,
  map (renew_lock (now + lease_seconds lease_minutes) run_id) locks,
)

pub reclaim_lock : ℕ → ResourceLock → ResourceLock
reclaim_lock now l =
    if is_unreleased l && leb l.lease_expires_at now
    then (record l { released_at = some now; release_reason = some "lease_expired" })
    else l

unfoldable pub reclaim_expired_locks : ℕ → List ResourceLock → ℕ × List ResourceLock
unfolding reclaim_lock
reclaim_expired_locks now locks = (
  count_if (λ l. is_unreleased l && leb l.lease_expires_at now) locks,
  map (reclaim_lock now) locks,
)
