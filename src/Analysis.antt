-- ===== src/Analysis.antt =====
-- The numbered analyses of a statistics step: `reserve_statistics_analysis`,
-- `finish_statistics_analysis` and `validate_statistics_completion_freshness` of
-- backend/app/services/statistics_execution.py.
pub mod Numbers
pub mod Freshness
pub mod Failing
use open_slt.Prelude.{
  ℕ, zero, suc, ◌+◌, ◌<◌, max, Bool, true, false, not, ◌&&◌, ◌||◌, Option, none, some, List, [],
  ◌∷◌, ◌++◌, map, if◌then◌else◌, ltb, leb, ◌==◌, is_none, is_some, same, find_last,
}
use open_slt.Errors.{
  Error, error_code, workflow_error, statistics_analysis_stale, statistics_analysis_missing, Result,
  ok, raised,
}
use open_slt.Domain.{
  AnalysisRecord, AnalysisStatus, AnalysisStatus-discrete, Summary, StepConfig, RunStep,
  remote_engine, ordinary_engine, batch_first_engine, batch_interval_engine, builtin_script,
}

-- `summary.get("statistics_analyses") or []`.
abbrev pub analyses : Summary → List AnalysisRecord
analyses s = elim s.statistics_analyses [ none ↦ [] | some h ↦ h ]

-- `max((item["analysis_no"] for item in history), default=0)`.
unfoldable pub last_number : List AnalysisRecord → ℕ
last_number [] = 0
last_number (r ∷ rs) = max r.analysis_no (last_number rs)

-- `int(summary.get(...) or 0)`.
abbrev pub or_zero : Option ℕ → ℕ
or_zero none = 0
or_zero (some n) = n

-- An engine other than the remote one has its own script.
unfoldable pub with_script : StepConfig → StepConfig
with_script config = elim config.engine [
  | remote_engine ↦ config
  | ordinary_engine ↦ record config { script = builtin_script ordinary_engine }
  | batch_first_engine ↦ record config { script = builtin_script batch_first_engine }
  | batch_interval_engine ↦ record config { script = builtin_script batch_interval_engine }
]

pub reserved : ℕ → ℕ → RunStep → AnalysisRecord
unfolding with_script
reserved now n step = record {
  analysis_no = n;
  status = AnalysisStatus.running;
  config_revision = or_zero step.result_summary.statistics_config_revision;
  inputs = step.result_summary.statistics_selection;
  max_latency_ns = step.config_snapshot.max_latency_ns;
  script = (with_script step.config_snapshot).script;
  started_at = now;
  finished_at = none;
  error_code = none;
  artifact_id = none;
}

-- The step with one more analysis, running, and the number of it.
unfoldable pub reserve_statistics_analysis : ℕ → RunStep → ℕ × RunStep
unfolding last_number reserved
reserve_statistics_analysis now step =
    let history = analyses step.result_summary in
    let n = last_number history + 1 in
    (
      n,
      record step {
        config_snapshot = with_script step.config_snapshot;
        result_summary = record (step.result_summary) {
          statistics_analyses = some (history ++ reserved now n step ∷ []);
          statistics_active_analysis_no = some n;
          statistics_next_analysis_no = some (n + 1);
        };
      },
    )

abbrev pub is_number : ℕ → AnalysisRecord → Bool
is_number n r = r.analysis_no == n

abbrev pub is_active_number : Option ℕ → AnalysisRecord → Bool
is_active_number none r = false
is_active_number (some n) r = is_number n r

-- `_finalize_statistics_analysis` with the status `failed`: the record once its artifact is sealed.
pub sealed_failure : ℕ → ℕ → Error → AnalysisRecord → AnalysisRecord
sealed_failure now artifact e r = record r {
  status = AnalysisStatus.failed;
  finished_at = some now;
  error_code = some (error_code e);
  artifact_id = some artifact;
}

replace_number : ℕ → AnalysisRecord → List AnalysisRecord → List AnalysisRecord
replace_number n new [] = []
replace_number n new (r ∷ rs) = (if is_number n r then new else r) ∷ replace_number n new rs

seal : ℕ → ℕ → Error → AnalysisRecord → RunStep → Result ℕ → Result RunStep
unfolding sealed_failure replace_number
seal now n e r step (raised x) = raised x
seal now n e r step (ok artifact) = ok (record step {
  result_summary = record (step.result_summary) {
    statistics_analyses =
        some (replace_number n (sealed_failure now artifact e r) (analyses step.result_summary));
  };
})

fail_active : (ℕ → Result ℕ) → ℕ → Error → ℕ → Option AnalysisRecord → RunStep → Result RunStep
unfolding seal
fail_active archive now e n none step = ok step
fail_active archive now e n (some r) step =
    if is_some r.artifact_id then ok step else seal now n e r step (archive n)

-- `finish_statistics_analysis(status="failed")`. Writing the immutable artifact of an analysis is a
-- parameter, `archive`: by the number of the analysis it gives the artifact's id, or raises.
unfoldable pub finish_failed_analysis : (ℕ → Result ℕ) → ℕ → Error → RunStep → Result RunStep
unfolding fail_active
finish_failed_analysis archive now e step = elim step.result_summary.statistics_active_analysis_no [
  | none ↦ ok step
  | some n ↦
      fail_active archive now e n (find_last (is_number n) (analyses step.result_summary)) step
]

-- The record is a success of that configuration.
fresh_record : ℕ → Option AnalysisRecord → Bool
fresh_record revision none = false
fresh_record revision (some r) =
    same AnalysisStatus-discrete r.status AnalysisStatus.succeeded && r.config_revision == revision

abbrev is_value : ℕ → Option ℕ → Bool
is_value n none = false
is_value n (some m) = m == n

-- `validate_statistics_completion_freshness`: whether the step may be completed.
unfoldable pub is_fresh : Summary → Bool
unfolding fresh_record
is_fresh s =
    let revision = or_zero s.statistics_config_revision in
    (is_none s.statistics_analyses && is_none s.statistics_config_revision)
    || (is_value revision s.statistics_latest_success_revision
        && fresh_record revision
            (find_last (is_active_number s.statistics_latest_success_analysis_no) (analyses s)))
