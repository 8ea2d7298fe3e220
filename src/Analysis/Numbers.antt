-- ===== src/Analysis/Numbers.antt =====
-- How analyses are numbered (`reserve_statistics_analysis` of
-- backend/app/services/statistics_execution.py).
use open_slt.Prelude.{
  ℕ, ◌+◌, ◌≤◌, ◌<◌, max, ◌≡◌, refl, some, List, [], ◌∷◌, ◌++◌, arith, All, find_last,
  All-map_weaken,
}
use open_slt.Domain.{AnalysisRecord, AnalysisStatus, RunStep}
use open_slt.Analysis.{analyses, last_number, reserved, reserve_statistics_analysis, is_number}

-- Strictly increasing numbers, all below a bound.
abbrev pub IsNumbered : ℕ → List AnalysisRecord → Type 0
IsNumbered n [] = Unit
IsNumbered n (r ∷ rs) = (n < r.analysis_no) × IsNumbered r.analysis_no rs

below_last : (rs : List AnalysisRecord) → All (λ r. r.analysis_no ≤ last_number rs) rs
unfolding last_number
below_last [] = tt
below_last (r ∷ rs) = (
  omega arith,
  All-map_weaken (λ (q : AnalysisRecord). q.analysis_no ≤ last_number rs)
      (λ q. q.analysis_no ≤ max r.analysis_no (last_number rs)) (λ q h. omega arith) rs
      (below_last rs),
)

IsNumbered-snoc :
    (n : ℕ) (rs : List AnalysisRecord) (r : AnalysisRecord)
    → IsNumbered n rs
    → n < r.analysis_no
    → All (λ q. q.analysis_no < r.analysis_no) rs
    → IsNumbered n (rs ++ r ∷ [])
IsNumbered-snoc n [] r h k a = (k, tt)
IsNumbered-snoc n (q ∷ rs) r h k a = (h.0, IsNumbered-snoc q.analysis_no rs r h.1 a.0 a.1)

find_last-snoc :
    (n : ℕ) (rs : List AnalysisRecord) (r : AnalysisRecord)
    → r.analysis_no ≡ n
    → find_last (is_number n) (rs ++ r ∷ []) ≡ some r
find_last-snoc n [] r e = ground arith
find_last-snoc n (q ∷ rs) r e = ground (arith, find_last-snoc n rs r e)

-- Reserving an analysis on a step whose analyses have increasing numbers from 1 on adds one at the
-- end, under a new number, the largest of all. The earlier ones stay as they were, the new one is the
-- active one, it is running, and it is the one that is found under its number.
pub reserve_statistics_analysis-IsNumbered :
    (now : ℕ) (step : RunStep)
    → IsNumbered 0 (analyses step.result_summary)
    → let (n, after) = reserve_statistics_analysis now step in
      IsNumbered 0 (analyses after.result_summary)
      × All (λ r. r.analysis_no < n) (analyses step.result_summary)
      × (after.result_summary.statistics_active_analysis_no ≡ some n)
      × (r : AnalysisRecord) × (analyses after.result_summary
          ≡ analyses step.result_summary ++ r ∷ [])
      × (find_last (is_number n) (analyses after.result_summary) ≡ some r)
      × (r.status ≡ AnalysisStatus.running)
unfolding reserve_statistics_analysis
reserve_statistics_analysis-IsNumbered now step h =
    let history = analyses step.result_summary in
    let r = reserved now (last_number history + 1) step in
    let below =
      All-map_weaken (λ (q : AnalysisRecord). q.analysis_no ≤ last_number history)
        (λ q. q.analysis_no < last_number history + 1) (λ q k. omega arith) history
        (below_last history) in
    (
      IsNumbered-snoc 0 history r h (unfold reserved in omega arith) below,
      below,
      refl,
      r,
      refl,
      find_last-snoc (last_number history + 1) history r refl,
      unfold reserved in refl,
    )
