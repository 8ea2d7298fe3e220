-- ===== src/Analysis/Failing.antt =====
-- `finish_statistics_analysis` with the status `failed`, of
-- backend/app/services/statistics_execution.py: the step afterwards.
use open_slt.Prelude.{ℕ, false, ◌≡◌, refl, Option, some, none, if-both, find_last, is_some}
use open_slt.Errors.{Error, Result, ok, raised, is_ok}
use open_slt.Domain.{RunStep, AnalysisRecord}
use open_slt.Analysis.{is_number, analyses, seal, fail_active, finish_failed_analysis}

-- It is still that step, in the same status; or an exception, for which there is a reason.
abbrev pub IsKept : Type 0 → RunStep → Result RunStep → Type 0
IsKept X step (ok new) = (new.id ≡ step.id) × (new.status ≡ step.status)
IsKept X step (raised _) = X

-- A reason for which archiving an analysis that has failed raises.
abbrev pub Refuses : Type 0 → (ℕ → Result ℕ) → Type 0
Refuses X archive = (n : ℕ) → is_ok (archive n) ≡ false → X

seal-IsKept :
    (X : Type 0) (now n : ℕ) (e : Error) (record_ : AnalysisRecord) (step : RunStep) (r : Result ℕ)
    → (is_ok r ≡ false → X)
    → IsKept X step (seal now n e record_ step r)
unfolding seal
seal-IsKept X now n e record_ step (ok artifact) h = (refl, refl)
seal-IsKept X now n e record_ step (raised x) h = h refl

module _ (X : Type 0) (archive : ℕ → Result ℕ) (now : ℕ) (e : Error) (step : RunStep)
    (refuses : Refuses X archive) where
  fail_active-IsKept :
      (n : ℕ) (o : Option AnalysisRecord) → IsKept X step (fail_active archive now e n o step)
  unfolding fail_active
  fail_active-IsKept n none = (refl, refl)
  fail_active-IsKept n (some r) =
      if-both (IsKept X step) (is_some r.artifact_id) {x = ok step} (refl, refl)
        (seal-IsKept X now n e r step (archive n) (refuses n))

  pub finish_failed_analysis-IsKept : IsKept X step (finish_failed_analysis archive now e step)
  unfolding finish_failed_analysis
  finish_failed_analysis-IsKept =
      elim step.result_summary.statistics_active_analysis_no
        as (λ o. IsKept X step (elim o [
          | none ↦ ok step
          | some n ↦
              fail_active archive now e n (find_last (is_number n) (analyses step.result_summary))
                step
        ])) [
          | none ↦ (refl, refl)
          | some n ↦ fail_active-IsKept n (find_last (is_number n) (analyses step.result_summary))
        ]
