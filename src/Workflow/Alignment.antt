-- ===== src/Workflow/Alignment.antt =====
-- How the status of a run of a workflow and the statuses of its steps belong together. The functions
-- of backend/app/services/orchestration.py keep them so: the children say which one does what.
pub mod Shape
pub mod Effects
pub mod Beginning
pub mod Waiting
pub mod Advance
pub mod Completing
pub mod Starting
pub mod Executing
pub mod Redelivery
pub mod Handling
pub mod Stopping
use open_slt.Prelude.{
  ℕ, Bool, true, false, ◌≡◌, ◌⊎◌, List, [], ◌∷◌, some, none, find, All, any, ◌==◌,
}
use open_slt.Status.{
  RunStatus, StepStatus, draft, resource_queue, awaiting_review, awaiting_step_start,
  awaiting_step_completion, awaiting_step_retry, completed, execution_failed, cancelled, timed_out,
  paused,
}
use open_slt.Domain.{RunStep, TestRun}
use open_slt.RunState.Table.{is_pausable}
use open_slt.Session.{is_set, step_is}

abbrev pub HasStatus : StepStatus → RunStep → Type 0
HasStatus s step = step.status ≡ s

abbrev pub AllPending : List RunStep → Type 0
AllPending = All (HasStatus StepStatus.pending)

-- The steps up to one have succeeded, that one has the status, and the ones after it are pending.
abbrev pub At : StepStatus → List RunStep → Type 0
At s [] = ⊥
At s (x ∷ xs) = ((x.status ≡ StepStatus.succeeded) × At s xs) ⊎ ((x.status ≡ s) × AllPending xs)

abbrev pub AllDone : List RunStep → Type 0
AllDone = All (HasStatus StepStatus.succeeded)

abbrev pub NoneRunning : List RunStep → Type 0
NoneRunning steps = find (step_is StepStatus.running) steps ≡ none

-- The statuses of the steps that belong to a status of the run. A run of a workflow never has one of
-- the statuses of the older fixed sequence, and of the steps of a run that is over none is running.
abbrev pub Fits : RunStatus → List RunStep → Type 0
Fits draft steps = AllPending steps
Fits resource_queue steps = AllPending steps
Fits awaiting_step_start steps = At StepStatus.pending steps
Fits RunStatus.running steps = At StepStatus.running steps
Fits awaiting_step_completion steps = At StepStatus.waiting steps
Fits awaiting_step_retry steps = At StepStatus.failed steps
Fits awaiting_review steps = At StepStatus.waiting steps ⊎ AllDone steps
Fits completed steps = NoneRunning steps
Fits execution_failed steps = NoneRunning steps
Fits RunStatus.cancelled steps = NoneRunning steps
Fits timed_out steps = NoneRunning steps
Fits _ steps = ⊥

abbrev pub step_ids : List RunStep → List ℕ
step_ids [] = []
step_ids (x ∷ xs) = x.id ∷ step_ids xs

abbrev pub AreDistinct : List ℕ → Type 0
AreDistinct [] = Unit
AreDistinct (i ∷ is) = (any (λ j. j == i) is ≡ false) × AreDistinct is

-- A run of a workflow, with the numbers of its steps.
abbrev pub IsWorkflowRun : TestRun → Type 0
IsWorkflowRun run = (is_set run.workflow_version_id ≡ true) × AreDistinct (step_ids run.steps)

-- A run that is paused fits the status that it was paused from, which is one of the pausable ones.
abbrev pub FitsRun : TestRun → Type 0
FitsRun run =
    Fits run.status run.steps
    ⊎ ((run.status ≡ paused)
        × (p : RunStatus) × (run.paused_from ≡ some p)
        × (is_pausable p ≡ true)
        × Fits p run.steps)

abbrev pub IsAligned : TestRun → Type 0
IsAligned run = IsWorkflowRun run × FitsRun run

-- A run of a workflow in the status, whose steps are as the predicate says.
abbrev pub Stands : RunStatus → (List RunStep → Type 0) → TestRun → Type 0
Stands r P run = IsWorkflowRun run × ((run.status ≡ r) × P run.steps)

-- Whatever an action returns.
abbrev pub Aligned : {A : Type 0} → A → TestRun → Type 0
Aligned _ = IsAligned
