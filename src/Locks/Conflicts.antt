-- ===== src/Locks/Conflicts.antt =====
-- The conflicts that `acquire_locks` of backend/app/services/orchestration.py reports.
use open_slt.Prelude.{
  ℕ, Bool, true, false, ◌&&◌, ◌||◌, ◌≡◌, ◌≢◌, refl, sym, ◌⊎◌, ◌↔◌, ◌∙◌, inl, inr, List, [], ◌∷◌,
  map, mem, select, ℕ_discrete, arith, ◌==◌, same, Bool-cases,
}
use open_slt.Domain.{ResourceLock}
use open_slt.Locks.{blocks, resource_of, insert_sorted, sorted_set, conflicts, acquire_locks}
use open_slt.Locks.Holders.{holds}

mem-insert_sorted :
    (c x : ℕ) (xs : List ℕ)
    → mem ℕ_discrete c (insert_sorted x xs) ≡ same ℕ_discrete c x || mem ℕ_discrete c xs
unfolding insert_sorted
mem-insert_sorted c x [] = refl
mem-insert_sorted c x (y ∷ ys) = ground (arith, mem-insert_sorted c x ys)

mem-sorted_set : (c : ℕ) (xs : List ℕ) → mem ℕ_discrete c (sorted_set xs) ≡ mem ℕ_discrete c xs
unfolding sorted_set
mem-sorted_set c [] = refl
mem-sorted_set c (x ∷ xs) = mem-insert_sorted c x (sorted_set xs) ∙ rw (mem-sorted_set c xs)

-- Some other run holds the resource.
abbrev pub HeldByOther : ℕ → ℕ → ℕ → List ResourceLock → Type 0
HeldByOther now p c locks = (q : ℕ) × (q ≢ p) × (holds now c q locks ≡ true)

module _ (now p : ℕ) (ids : List ℕ) (c : ℕ) where
  blocked : List ResourceLock → Bool
  blocked locks = mem ℕ_discrete c (map resource_of (select (blocks now p ids) locks))

  blocked→held :
      (locks : List ResourceLock)
      → blocked locks ≡ true
      → (mem ℕ_discrete c ids ≡ true) × HeldByOther now p c locks
  unfolding blocked blocks resource_of
  blocked→held [] h = cc
  blocked→held (l ∷ ls) h = elim (Bool-cases (l.resource_id == c && blocks now p ids l)) [
    | inl b ↦ (ground arith, (l.run_id, ground arith, ground arith))
    | inr b ↦ later (blocked→held ls (ground arith))
  ]
    where
      later :
          (mem ℕ_discrete c ids ≡ true) × HeldByOther now p c ls
          → (mem ℕ_discrete c ids ≡ true) × HeldByOther now p c (l ∷ ls)
      later (m, t) = let (q, n, k) = t in (m, (q, n, ground arith))

  held→blocked :
      (locks : List ResourceLock) (q : ℕ)
      → mem ℕ_discrete c ids ≡ true
      → q ≢ p
      → holds now c q locks ≡ true
      → blocked locks ≡ true
  unfolding blocked blocks resource_of
  held→blocked [] q m n h = cc
  held→blocked (l ∷ ls) q m n h = ground (arith, held→blocked ls q m n)

reported :
    (now p minutes : ℕ) (ids : List ℕ) (locks : List ResourceLock)
    → (acquire_locks now p ids minutes locks).0.1 ≡ conflicts now p ids locks
unfolding acquire_locks
reported now p minutes ids locks = ground arith

mem-conflicts :
    (now p : ℕ) (ids : List ℕ) (locks : List ResourceLock) (c : ℕ)
    → mem ℕ_discrete c (conflicts now p ids locks) ≡ blocked now p ids c locks
unfolding conflicts blocked
mem-conflicts now p ids locks c = mem-sorted_set c _

refused :
    (now p minutes : ℕ) (ids : List ℕ) (locks : List ResourceLock)
    → let r = acquire_locks now p ids minutes locks in
      (r.0.0 ≡ true) × (r.0.1 ≡ []) ⊎ (r.0.0 ≡ false) × (r.0.1 ≢ []) × (r.1 ≡ locks)
unfolding acquire_locks
refused now p minutes ids locks = ground arith

-- The conflicts that `acquire_locks` reports are exactly the resources asked for that some other run
-- holds. Either it succeeds and reports none, or it fails, reports some and changes no lock.
pub acquire_locks-conflicts :
    (now p minutes : ℕ) (ids : List ℕ) (locks : List ResourceLock)
    → let r = acquire_locks now p ids minutes locks in
      ((c : ℕ)
        → (mem ℕ_discrete c r.0.1 ≡ true)
          ↔ ((mem ℕ_discrete c ids ≡ true) × HeldByOther now p c locks))
      × ((r.0.0 ≡ true) × (r.0.1 ≡ []) ⊎ (r.0.0 ≡ false) × (r.0.1 ≢ []) × (r.1 ≡ locks))
acquire_locks-conflicts now p minutes ids locks = (
  λ c. (
    λ h.
        blocked→held now p ids c locks
          (sym (mem-conflicts now p ids locks c) ∙ (rw (reported now p minutes ids locks) at h)),
    λ h.
        let (m, t) = h in
        let (q, n, k) = t in
        rw (reported now p minutes ids locks)
          (mem-conflicts now p ids locks c ∙ held→blocked now p ids c locks q m n k),
  ),
  refused now p minutes ids locks,
)
