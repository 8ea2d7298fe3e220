-- ===== src/Analysis/Freshness.antt =====
-- When a statistics step may be completed (`validate_statistics_completion_freshness` of
-- backend/app/services/statistics_execution.py).
use open_slt.Prelude.{
  ◌≡◌, Bool, true, ◌⊎◌, inl, inr, refl, Option, none, some, List, [], ◌∷◌, arith, find_last, Any,
  Option-cases, Bool-cases,
}
use open_slt.Domain.{AnalysisRecord, AnalysisStatus, Summary}
use open_slt.Analysis.{analyses, or_zero, is_active_number, fresh_record, is_fresh}

find_last-Any :
    (Q : AnalysisRecord → Type 0) (p : AnalysisRecord → Bool) (rs : List AnalysisRecord)
    (r : AnalysisRecord)
    → ((q : AnalysisRecord) → p q ≡ true → q ≡ r → Q q)
    → find_last p rs ≡ some r
    → Any Q rs
find_last-Any Q p [] r k h = cc
find_last-Any Q p (q ∷ rs) r k h = elim (Option-cases (find_last p rs)) [
  | inl e ↦ inl (k q (ground arith) (ground arith))
  | inr (a, e) ↦ inr (find_last-Any Q p rs r k (ground arith))
]

-- The analysis that shows the step to be fresh.
pub record ShowsFresh (s : Summary) (r : AnalysisRecord) : Type 0 where
  pub is_success : r.status ≡ AnalysisStatus.succeeded
  pub of_revision : r.config_revision ≡ or_zero s.statistics_config_revision
  pub is_latest : s.statistics_latest_success_analysis_no ≡ some r.analysis_no

shows :
    (s : Summary) (q r : AnalysisRecord)
    → is_active_number s.statistics_latest_success_analysis_no q ≡ true
    → fresh_record (or_zero s.statistics_config_revision) (some r) ≡ true
    → q ≡ r
    → ShowsFresh s q
unfolding fresh_record
shows s q r k h i = ground arith

fresh_found :
    (s : Summary) (o : Option AnalysisRecord)
    → find_last (is_active_number s.statistics_latest_success_analysis_no) (analyses s) ≡ o
    → fresh_record (or_zero s.statistics_config_revision) o ≡ true
    → Any (ShowsFresh s) (analyses s)
fresh_found s none e h = unfold fresh_record in cc
fresh_found s (some r) e h =
    find_last-Any (ShowsFresh s) _ (analyses s) r (λ q k i. shows s q r k h i) e

-- A statistics step may be completed only if it is from before configurations were numbered (it has
-- neither a revision nor a list of analyses), or if one of its analyses succeeded, was made for the
-- revision that the configuration has now, and is the one recorded as the latest success.
pub is_fresh-ShowsFresh :
    (s : Summary)
    → is_fresh s ≡ true
    → (s.statistics_analyses ≡ none) × (s.statistics_config_revision ≡ none)
      ⊎ Any (ShowsFresh s) (analyses s)
unfolding is_fresh
is_fresh-ShowsFresh s h =
    elim (Bool-cases (
      fresh_record (or_zero s.statistics_config_revision)
        (find_last (is_active_number s.statistics_latest_success_analysis_no) (analyses s)))) [
          | inl b ↦ inr (fresh_found s _ refl b)
          | inr b ↦ inl (ground arith)
        ]
