-- ===== src/Examples/Comparing.antt =====
-- The theorems about comparisons at the metrics of two runs.
use open_slt.Prelude.{
  ℕ, Bool, ℕ_discrete, true, ◌==◌, ◌≡◌, some, List, [], ◌∷◌, All, count_if, same,
}
use open_slt.Comparison.{
  Change, stable, compare_runs, MetricEntry, Row, ComparedRun, comparison_rows,
  comparison_candidates,
}
use open_slt.Comparison.Recommending.{IsDeserved, is_recommended, comparison_candidates-recommended}
use open_slt.Comparison.Accounting.{comparison_rows-accounted}

abbrev metric : ℕ → ℕ → MetricEntry ℕ ℕ
metric k n = record {
  key = k;
  unit = 1;
  script_checksum = 7;
  max_latency_ns = some 1000;
  value = n;
}

abbrev compared : ℕ → List (MetricEntry ℕ ℕ) → ComparedRun ℕ ℕ
compared i ms = record {
  id = i;
  scenario_id = 1;
  workflow_version_id = some 4;
  metrics = ms;
  passed = true;
}

abbrev no_empty : ℕ → Bool
no_empty s = s == 0

abbrev always_stable : ℕ → ℕ → Change
always_stable a b = stable

abbrev new_run : ComparedRun ℕ ℕ
new_run = compared 9 (metric 1 20 ∷ metric 2 30 ∷ [])

abbrev old_runs : List (ComparedRun ℕ ℕ)
old_runs =
    compared 8 (metric 3 20 ∷ [])
    ∷ compared 7 (metric 1 21 ∷ [])
    ∷ compared 6 (metric 2 5 ∷ [])
    ∷ []

comparison_candidates-recommended_example :
    let cs = comparison_candidates ℕ_discrete no_empty always_stable new_run old_runs in
    All IsDeserved cs × (count_if is_recommended cs ≡ 1)
unfolding comparison_candidates compare_runs ℕ_discrete
comparison_candidates-recommended_example =
    comparison_candidates-recommended ℕ_discrete no_empty always_stable new_run old_runs

comparison_rows-accounted_example :
    count_if
      (λ (row : Row ℕ ℕ). same ℕ_discrete row.key 3)
      (comparison_rows ℕ_discrete no_empty always_stable new_run.metrics
        (metric 3 20 ∷ metric 1 21 ∷ []))
    ≡ 1
unfolding ℕ_discrete
comparison_rows-accounted_example =
    comparison_rows-accounted ℕ_discrete no_empty always_stable 3 new_run.metrics
      (metric 3 20 ∷ metric 1 21 ∷ [])
