-- ===== src/Workflow/Alignment/Shape.antt =====
-- The statuses of the steps of a run, around the one that the run is at.
use open_slt.Prelude.{
  ℕ, true, false, ◌≡◌, ◌≢◌, ◌⊎◌, inl, inr, refl, some, none, List, [], ◌∷◌, any, arith, find,
  modify_first, ◌==◌, ap,
}
use open_slt.Status.{StepStatus, RunStatus, paused}
use open_slt.Domain.{RunStep, TestRun}
use open_slt.Session.{has_step_id, is_unfinished, current_step}
use open_slt.Workflow.Alignment.{
  NoneRunning, At, AllDone, AllPending, step_ids, AreDistinct, Stands, Fits, IsAligned,
}

-- The steps up to the one of that id have succeeded and have other ids, that one has the status, and
-- the ones after it are pending.
abbrev pub AtStep : ℕ → StepStatus → List RunStep → Type 0
AtStep i s [] = ⊥
AtStep i s (x ∷ xs) =
    ((x.status ≡ StepStatus.succeeded) × ((x.id == i) ≡ false) × AtStep i s xs)
    ⊎ ((x.status ≡ s) × ((x.id == i) ≡ true) × AllPending xs)

found_id :
    (steps : List RunStep) (c : RunStep)
    → find is_unfinished steps ≡ some c
    → any (λ j. j == c.id) (step_ids steps) ≡ true
found_id [] c f = cc
found_id (x ∷ xs) c f = ground (arith, found_id xs c)

not_found_id :
    (i j : ℕ) (is : List ℕ)
    → any (λ k. k == i) is ≡ false
    → any (λ k. k == j) is ≡ true
    → (i == j) ≡ false
not_found_id i j [] h k = cc
not_found_id i j (x ∷ xs) h k = ground (arith, not_found_id i j xs)

pub At-AtStep :
    (s : StepStatus) (steps : List RunStep)
    → s ≢ StepStatus.succeeded
    → AreDistinct (step_ids steps)
    → At s steps
    → (c : RunStep) × (find is_unfinished steps ≡ some c) × (c.status ≡ s) × AtStep c.id s steps
At-AtStep s [] n d h = absurd h
At-AtStep s (x ∷ xs) n d (inl h) =
    let (c, f, e, g) = At-AtStep s xs n d.1 h.1 in
    (c, ground arith, e, inl (h.0, not_found_id x.id c.id (step_ids xs) d.0 (found_id xs c f), g))
At-AtStep s (x ∷ xs) n d (inr h) = (x, ground arith, h.0, inr (h.0, ground arith, h.1))

pub AtStep-At : (i : ℕ) (s : StepStatus) (steps : List RunStep) → AtStep i s steps → At s steps
AtStep-At i s [] h = absurd h
AtStep-At i s (x ∷ xs) (inl h) = inl (h.0, AtStep-At i s xs h.2)
AtStep-At i s (x ∷ xs) (inr h) = inr (h.0, h.2)

AtStep-modify :
    (i : ℕ) (s t : StepStatus) (a : RunStep) (steps : List RunStep)
    → AtStep i s steps
    → a.id ≡ i
    → a.status ≡ t
    → AtStep i t (modify_first (has_step_id i) (λ _. a) steps)
AtStep-modify i s t a [] h d e = absurd h
AtStep-modify i s t a (x ∷ xs) (inl h) d e =
    rw h.1 (inl (h.0, h.1, AtStep-modify i s t a xs h.2 d e))
AtStep-modify i s t a (x ∷ xs) (inr h) d e = rw h.1 (inr (e, ground arith, h.2))

-- the step of that id is written anew
pub AtStep-put :
    (i : ℕ) (s t : StepStatus) (a : RunStep) (steps : List RunStep)
    → AtStep i s steps
    → a.id ≡ i
    → a.status ≡ t
    → AtStep i t (modify_first (has_step_id a.id) (λ _. a) steps)
AtStep-put i s t a steps h d e =
    rw (ap (λ j. modify_first (has_step_id j) (λ _. a) steps) d) (AtStep-modify i s t a steps h d e)

pub AtStep-find :
    (i : ℕ) (s : StepStatus) (steps : List RunStep)
    → AtStep i s steps
    → (c : RunStep) × (find (has_step_id i) steps ≡ some c) × (c.status ≡ s) × (c.id ≡ i)
AtStep-find i s [] h = absurd h
AtStep-find i s (x ∷ xs) (inl h) =
    let (c, f, e, d) = AtStep-find i s xs h.2 in (c, ground arith, e, d)
AtStep-find i s (x ∷ xs) (inr h) = (x, ground arith, h.0, ground arith)

-- the step of that id is the first unfinished one
pub AtStep-current :
    (i : ℕ) (s : StepStatus) (steps : List RunStep)
    → s ≢ StepStatus.succeeded
    → AtStep i s steps
    → find is_unfinished steps ≡ find (has_step_id i) steps
AtStep-current i s [] n h = refl
AtStep-current i s (x ∷ xs) n (inl h) = ground (arith, AtStep-current i s xs n h.2, h.0, h.1)
AtStep-current i s (x ∷ xs) n (inr h) = ground (arith, h.0, h.1)

pub step_ids-put :
    (a : RunStep) (steps : List RunStep)
    → step_ids (modify_first (has_step_id a.id) (λ _. a) steps) ≡ step_ids steps
step_ids-put a [] = refl
step_ids-put a (x ∷ xs) = ground (arith, step_ids-put a xs)

pub AllPending-NoneRunning : (steps : List RunStep) → AllPending steps → NoneRunning steps
AllPending-NoneRunning [] h = refl
AllPending-NoneRunning (x ∷ xs) h = ground (arith, AllPending-NoneRunning xs h.1)

pub At-NoneRunning :
    (s : StepStatus) (steps : List RunStep)
    → s ≢ StepStatus.running
    → At s steps
    → NoneRunning steps
At-NoneRunning s [] n h = refl
At-NoneRunning s (x ∷ xs) n (inl h) = ground (arith, At-NoneRunning s xs n h.1)
At-NoneRunning s (x ∷ xs) n (inr h) = ground (arith, AllPending-NoneRunning xs h.1, h.0)

pub AllDone-current : (steps : List RunStep) → AllDone steps → find is_unfinished steps ≡ none
AllDone-current [] h = refl
AllDone-current (x ∷ xs) h = ground (arith, AllDone-current xs h.1)

pub AllDone-NoneRunning : (steps : List RunStep) → AllDone steps → NoneRunning steps
AllDone-NoneRunning [] h = refl
AllDone-NoneRunning (x ∷ xs) h = ground (arith, AllDone-NoneRunning xs h.1)

pub AllPending-At :
    (x : RunStep) (xs : List RunStep) → AllPending (x ∷ xs) → At StepStatus.pending (x ∷ xs)
AllPending-At x xs h = inr h

-- once the step has succeeded, the next one is pending, or there is none
pub At-succeeded :
    (steps : List RunStep)
    → At StepStatus.succeeded steps
    → AllDone steps ⊎ At StepStatus.pending steps
At-succeeded [] h = absurd h
At-succeeded (x ∷ xs) (inl h) = elim (At-succeeded xs h.1) [
  | inl a ↦ inl (h.0, a)
  | inr b ↦ inr (inl (h.0, b))
]
At-succeeded (x ∷ []) (inr h) = inl (h.0, tt)
At-succeeded (x ∷ y ∷ ys) (inr h) = inr (inl (h.0, inr h.1))

pub aligned : (r : RunStatus) (run : TestRun) → Stands r (Fits r) run → IsAligned run
aligned r run h = (h.0, inl (rw h.1.0 h.1.1))

pub stands :
    (r : RunStatus) (run : TestRun)
    → r ≢ paused
    → run.status ≡ r
    → IsAligned run
    → Stands r (Fits r) run
stands r run n e (w, inl f) = (w, (e, rw⁻¹ e f))
stands r run n e (w, inr f) = absurd (n (ground (arith, e, f.0)))

-- an aligned run at a step, with its first unfinished step
pub At-first :
    (r : RunStatus) (s : StepStatus) (run : TestRun)
    → s ≢ StepStatus.succeeded
    → Stands r (At s) run
    → (c : RunStep) × (current_step run ≡ some c) × (c.status ≡ s) × Stands r (AtStep c.id s) run
At-first r s run n h =
    let (c, f, e, a) = At-AtStep s run.steps n h.0.1 h.1.1 in (c, f, e, (h.0, (h.1.0, a)))

pub pending_found :
    (i : ℕ) (steps : List RunStep) (x : RunStep)
    → AllPending steps
    → find (has_step_id i) steps ≡ some x
    → x.status ≡ StepStatus.pending
pending_found i [] x h f = cc
pending_found i (y ∷ ys) x h f = ground (arith, pending_found i ys x h.1, h.0, f)

-- the only step in that status
pub At-found :
    (s : StepStatus) (i : ℕ) (x : RunStep) (steps : List RunStep)
    → s ≢ StepStatus.succeeded
    → s ≢ StepStatus.pending
    → At s steps
    → find (has_step_id i) steps ≡ some x
    → x.status ≡ s
    → AtStep i s steps
At-found s i x [] n m h f e = absurd h
At-found s i x (y ∷ ys) n m (inl h) f e = inl (h.0, other, At-found s i x ys n m h.1 later e)
  where
    other : ((y.id == i) ≡ false)
    other = ground (arith, f, e, h.0)

    later : find (has_step_id i) ys ≡ some x
    later = ground (arith, f, other)
At-found s i x (y ∷ ys) n m (inr h) f e = inr (h.0, it, h.1)
  where
    it : ((y.id == i) ≡ true)
    it = ground (arith, f, e, pending_found i ys x h.1)
