-- ===== src/Locks/Holders.antt =====
-- Who holds a resource, and how each operation on locks changes that.
use open_slt.Prelude.{
  ℕ, ◌≤◌, ◌<◌, String, Bool, true, false, ◌&&◌, ◌||◌, ◌≡◌, refl, ◌⊎◌, inl, inr, List, [], ◌∷◌, ◌++◌,
  map, if◌then◌else◌, ltb, ◌==◌, mem, any, ℕ_discrete, arith, Bool-cases,
}
use open_slt.Domain.{ResourceLock}
use open_slt.Locks.{
  is_active, insert_sorted, blocks, conflicts, add_locks, is_own, new_lock, release_lock,
  renew_lock, reclaim_lock,
}

-- The run holds the resource at the instant `now`.
abbrev is_hold : ℕ → ℕ → ℕ → ResourceLock → Bool
is_hold now r q l = l.resource_id == r && l.run_id == q && is_active now l

abbrev pub holds : ℕ → ℕ → ℕ → List ResourceLock → Bool
holds now r q locks = any (is_hold now r q) locks

any-append :
    (p : ResourceLock → Bool) (xs ys : List ResourceLock) → any p (xs ++ ys) ≡ any p xs || any p ys
any-append p [] ys = refl
any-append p (x ∷ xs) ys = ground (arith, any-append p xs ys)

-- a lock that lapses no sooner stays held only if it was held before
pub holds_earlier :
    (now later r q : ℕ) (locks : List ResourceLock)
    → now ≤ later
    → holds later r q locks ≡ true
    → holds now r q locks ≡ true
holds_earlier now later r q [] h k = k
holds_earlier now later r q (l ∷ locks) h k = ground (arith, holds_earlier now later r q locks h)

insert_sorted-ne_nil : (x : ℕ) (xs : List ℕ) → insert_sorted x xs ≡ [] → ⊥
unfolding insert_sorted
insert_sorted-ne_nil x [] h = cc
insert_sorted-ne_nil x (y ∷ ys) h = ground arith

conflicts_cons :
    (now p : ℕ) (ids : List ℕ) (l : ResourceLock) (ls : List ResourceLock)
    → conflicts now p ids (l ∷ ls) ≡ []
    → (blocks now p ids l ≡ false) × (conflicts now p ids ls ≡ [])
unfolding conflicts
conflicts_cons now p ids l ls e = elim (Bool-cases (blocks now p ids l)) [
  | inl b ↦ absurd (insert_sorted-ne_nil l.resource_id (conflicts now p ids ls) (rw b at e))
  | inr b ↦ (b, rw b at e)
]

-- no conflict: on these resources only the run itself holds anything
pub conflicts_nil :
    (now p : ℕ) (ids : List ℕ) (locks : List ResourceLock) (r q : ℕ)
    → conflicts now p ids locks ≡ []
    → mem ℕ_discrete r ids ≡ true
    → holds now r q locks ≡ true
    → q ≡ p
unfolding blocks
conflicts_nil now p ids [] r q e m h = cc
conflicts_nil now p ids (l ∷ ls) r q e m h =
    let c = conflicts_cons now p ids l ls e in
    ground (arith, c.0, conflicts_nil now p ids ls r q c.1 m)

holds-new :
    (now p i expires : ℕ) (locks : List ResourceLock) (r q : ℕ)
    → holds now r q (if any (is_own p i) locks then locks else (locks ++ new_lock expires p i ∷ []))
      ≡ true
    → (holds now r q locks ≡ true) ⊎ ((r ≡ i) × (q ≡ p))
unfolding new_lock
holds-new now p i expires locks r q =
    ground (arith, any-append (is_hold now r q) locks (new_lock expires p i ∷ []))

-- adding locks gives nothing to anybody but the run, and only the resources asked for
pub holds-add_locks :
    (now expires p : ℕ) (ids : List ℕ) (locks : List ResourceLock) (r q : ℕ)
    → holds now r q (add_locks expires p ids locks) ≡ true
    → (holds now r q locks ≡ true) ⊎ ((mem ℕ_discrete r ids ≡ true) × (q ≡ p))
unfolding add_locks
holds-add_locks now expires p [] locks r q h = inl h
holds-add_locks now expires p (i ∷ ids) locks r q h =
    elim (holds-add_locks now expires p ids _ r q h) [
      | inl k ↦ elim (holds-new now p i expires locks r q k) [
        | inl a ↦ inl a
        | inr b ↦ inr (ground (arith, b.0), b.1)
      ]
      | inr k ↦ inr (ground arith, k.1)
    ]

-- The run has an unreleased lock on the resource, lapsed or not.
abbrev pub owns : ℕ → ℕ → List ResourceLock → Bool
owns r q locks = any (is_own q r) locks

-- releasing takes everything from the run and nothing from the others
pub holds-release :
    (now t p : ℕ) (reason : String) (locks : List ResourceLock) (r q : ℕ)
    → holds now r q (map (release_lock t p reason) locks)
      ≡ (if q == p then false else holds now r q locks)
unfolding release_lock
holds-release now t p reason [] r q = ground arith
holds-release now t p reason (l ∷ ls) r q = ground (arith, holds-release now t p reason ls r q)

-- reclaiming takes only what has lapsed
pub holds-reclaim :
    (now t : ℕ) (locks : List ResourceLock) (r q : ℕ)
    → t ≤ now
    → holds now r q (map (reclaim_lock t) locks) ≡ holds now r q locks
unfolding reclaim_lock
holds-reclaim now t [] r q h = refl
holds-reclaim now t (l ∷ ls) r q h = ground (arith, holds-reclaim now t ls r q h)

-- renewing gives the run whatever it has not released
pub holds-renew :
    (now expires p : ℕ) (locks : List ResourceLock) (r q : ℕ)
    → holds now r q (map (renew_lock expires p) locks)
      ≡ (if q == p then owns r p locks && ltb now expires else holds now r q locks)
unfolding renew_lock
holds-renew now expires p [] r q = ground arith
holds-renew now expires p (l ∷ ls) r q = ground (arith, holds-renew now expires p ls r q)

-- adding locks takes nothing away, and leaves the run with a lock on each resource
pub add_locks-holds :
    (now expires p : ℕ) (ids : List ℕ) (locks : List ResourceLock) (r q : ℕ)
    → holds now r q locks ≡ true
    → holds now r q (add_locks expires p ids locks) ≡ true
unfolding add_locks new_lock
add_locks-holds now expires p [] locks r q h = h
add_locks-holds now expires p (i ∷ ids) locks r q h =
    add_locks-holds now expires p ids _ r q
      (ground (arith, any-append (is_hold now r q) locks (new_lock expires p i ∷ [])))

-- one round of the loop
module _ (now expires p i : ℕ) (locks : List ResourceLock) (e : now < expires) where
  round : List ResourceLock
  round = if any (is_own p i) locks then locks else locks ++ new_lock expires p i ∷ []

  round-holds :
      (r : ℕ)
      → (owns r p locks ≡ true → holds now r p locks ≡ true)
      → (owns r p round ≡ true) ⊎ (r ≡ i)
      → holds now r p round ≡ true
  unfolding round new_lock
  round-holds r k c = ground (
    arith,
    any-append (is_hold now r p) locks (new_lock expires p i ∷ []),
    any-append (is_own p r) locks (new_lock expires p i ∷ []),
  )

-- what the run has not let lapse, or had not locked, it holds after the locks are added
pub add_locks-mem :
    (now expires p : ℕ) (ids : List ℕ) (locks : List ResourceLock) (r : ℕ)
    → now < expires
    → (owns r p locks ≡ true → holds now r p locks ≡ true)
    → mem ℕ_discrete r ids ≡ true
    → holds now r p (add_locks expires p ids locks) ≡ true
unfolding add_locks round
add_locks-mem now expires p [] locks r e k m = cc
add_locks-mem now expires p (i ∷ ids) locks r e k m = elim (ℕ_discrete r i) [
  | yes h ↦
      add_locks-holds now expires p ids (round now expires p i locks e) r p
        (round-holds now expires p i locks e r k (inr h))
  | no h ↦
      add_locks-mem now expires p ids (round now expires p i locks e) r e
        (λ o. round-holds now expires p i locks e r k (inl o)) (ground arith)
]

pub add_locks-owns :
    (expires p : ℕ) (ids : List ℕ) (locks : List ResourceLock) (r q : ℕ)
    → owns r q locks ≡ true
    → owns r q (add_locks expires p ids locks) ≡ true
unfolding add_locks new_lock
add_locks-owns expires p [] locks r q h = h
add_locks-owns expires p (i ∷ ids) locks r q h =
    add_locks-owns expires p ids _ r q
      (ground (arith, any-append (is_own q r) locks (new_lock expires p i ∷ [])))

-- no lock is added where the run has an unreleased one, and so a lapsed one stays lapsed
pub add_locks_lapsed :
    (now expires p : ℕ) (ids : List ℕ) (locks : List ResourceLock) (r : ℕ)
    → owns r p locks ≡ true
    → holds now r p locks ≡ false
    → holds now r p (add_locks expires p ids locks) ≡ false
unfolding add_locks new_lock
add_locks_lapsed now expires p [] locks r o h = h
add_locks_lapsed now expires p (i ∷ ids) locks r o h =
    add_locks_lapsed now expires p ids _ r
      (ground (arith, any-append (is_own p r) locks (new_lock expires p i ∷ [])))
      (ground (arith, any-append (is_hold now r p) locks (new_lock expires p i ∷ [])))
