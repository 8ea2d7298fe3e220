-- ===== src/Examples/Data.antt =====
-- The theorems about numbered analyses and about ordered relations at small data.
use open_slt.Prelude.{
  ◌<◌, refl, ◌≡◌, ◌⊎◌, some, none, List, [], ◌∷◌, ◌++◌, arith, All, Any, find_last,
}
use open_slt.Status.{StepStatus, draft}
use open_slt.Domain.{
  Link, AnalysisRecord, AnalysisStatus, AnalysisStatus-discrete, Summary, RunStep, TestRun,
  data_statistics, configured_script,
}
use open_slt.Analysis.{analyses, is_number, reserve_statistics_analysis, is_fresh}
use open_slt.Analysis.Numbers.{IsNumbered, reserve_statistics_analysis-IsNumbered}
use open_slt.Analysis.Freshness.{ShowsFresh, is_fresh-ShowsFresh}
use open_slt.Relations.{
  Owner, resource_ids, run_resource_ids, sync_resources, sync_run_resources, are_unique,
}
use open_slt.Relations.{NodeOwner}
use open_slt.Domain.{order_preparation}
use open_slt.Prelude.{ℕ_discrete}
use open_slt.Relations.Sync.{resource_ids-sync_resources}
use open_slt.Examples.{empty_summary, step_of, run_of, true}

abbrev first_analysis : AnalysisRecord
first_analysis = record {
  analysis_no = 1;
  status = AnalysisStatus.succeeded;
  config_revision = 2;
  inputs = [];
  max_latency_ns = none;
  script = configured_script 3 4;
  started_at = 5;
  finished_at = some 9;
  error_code = none;
  artifact_id = some 40;
}

abbrev analysed_summary : Summary
analysed_summary = record empty_summary {
  statistics_analyses = some (first_analysis ∷ []);
  statistics_config_revision = some 2;
  statistics_latest_success_analysis_no = some 1;
  statistics_latest_success_revision = some 2;
}

abbrev analysed_step : RunStep
analysed_step = record (step_of 12 data_statistics StepStatus.waiting) {
  result_summary = analysed_summary;
}

reserve_statistics_analysis-IsNumbered_example :
    let (n, after) = reserve_statistics_analysis 20 analysed_step in
    IsNumbered 0 (analyses after.result_summary)
    × All (λ r. r.analysis_no < n) (first_analysis ∷ [])
    × (after.result_summary.statistics_active_analysis_no ≡ some n)
    × (r : AnalysisRecord) × (analyses after.result_summary ≡ (first_analysis ∷ []) ++ r ∷ [])
    × (find_last (is_number n) (analyses after.result_summary) ≡ some r)
    × (r.status ≡ AnalysisStatus.running)
reserve_statistics_analysis-IsNumbered_example =
    reserve_statistics_analysis-IsNumbered 20 analysed_step (omega arith, tt)

is_fresh-ShowsFresh_example :
    (analysed_summary.statistics_analyses ≡ none)
      × (analysed_summary.statistics_config_revision ≡ none)
    ⊎ Any (ShowsFresh analysed_summary) (first_analysis ∷ [])
unfolding is_fresh AnalysisStatus-discrete
is_fresh-ShowsFresh_example = is_fresh-ShowsFresh analysed_summary refl

abbrev two_links : List Link
two_links = record { value = 7; position = 1 } ∷ record { value = 8; position = 2 } ∷ []

abbrev pub linked_run : TestRun
linked_run = record (run_of draft []) { resource_links = two_links }

abbrev pub linked_owner : Owner
linked_owner = record { links = two_links; legacy_ids = 7 ∷ 8 ∷ [] }

resource_ids-sync_resources_example :
    (are_unique (sync_resources (8 ∷ 7 ∷ 9 ∷ []) linked_owner).links ≡ true)
    × (resource_ids (sync_resources (8 ∷ 7 ∷ 9 ∷ []) linked_owner) ≡ 8 ∷ 7 ∷ 9 ∷ [])
    × (are_unique (sync_run_resources (8 ∷ 7 ∷ 9 ∷ []) linked_run).resource_links ≡ true)
    × (run_resource_ids (sync_run_resources (8 ∷ 7 ∷ 9 ∷ []) linked_run) ≡ 8 ∷ 7 ∷ 9 ∷ [])
unfolding are_unique ℕ_discrete
resource_ids-sync_resources_example =
    resource_ids-sync_resources (8 ∷ 7 ∷ 9 ∷ []) linked_owner linked_run refl
      (omega arith, (omega arith, tt)) (omega arith, (omega arith, tt))

abbrev pub linked_node : NodeOwner
linked_node = record {
  node_type = order_preparation;
  contract_file_links = two_links;
  contract_file_ids = some (8 ∷ []);
}

-- the JSON list has a repetition and a zero
abbrev pub drifted_owner : Owner
drifted_owner = record { links = two_links; legacy_ids = 7 ∷ 0 ∷ 7 ∷ 9 ∷ [] }
