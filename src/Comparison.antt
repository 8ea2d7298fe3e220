-- ===== src/Comparison.antt =====
-- The comparison of a run with a baseline: `_comparison_rows`, `compare_runs` and
-- `comparison_candidates` of backend/app/services/run_comparisons.py, on the snapshots of the metrics of
-- both runs. Strings are a type with a decidable equality, values are a type with the comparison of two
-- of them. The texts of rows and warnings are not modelled.
pub mod Recommending
pub mod Accounting
use open_slt.Prelude.{
  ℕ, Bool, true, false, not, ◌&&◌, ◌||◌, Option, none, some, List, [], ◌∷◌, ◌++◌, map,
  if◌then◌else◌, ◌==◌, same, any, find, select, count_if,
}
use open_slt.Errors.{
  http_exception, target_metrics_required, baseline_metrics_required, baseline_scenario_mismatch,
  Result, ok, raised,
}

-- What a comparison of two floats gives.
pub data Change : Type 0 where
  stable improved regressed : Change

-- Why two metrics cannot be compared.
pub data Mismatch : Type 0 where
  units no_script scripts no_limit limits : Mismatch

pub data Assessment : Type 0 where
  missing added : Assessment
  incompatible : Mismatch → Assessment
  changed : Change → Assessment

-- An entry of `metric_snapshot`.
pub record MetricEntry (S V : Type 0) : Type 0 where
  pub key : S
  pub unit : S
  pub script_checksum : S
  pub max_latency_ns : Option ℕ
  pub value : V

pub record Row (S V : Type 0) : Type 0 where
  pub key : S
  pub baseline_value : Option V
  pub target_value : Option V
  pub assessment : Assessment

-- What the comparison reads of a run, and whether its verdict is "passed".
pub record ComparedRun (S V : Type 0) : Type 0 where
  pub id : ℕ
  pub scenario_id : ℕ
  pub workflow_version_id : Option ℕ
  pub metrics : List (MetricEntry S V)
  pub passed : Bool

pub record Comparison (S V : Type 0) : Type 0 where
  pub rows : List (Row S V)
  pub compatible : Bool
  pub matched : ℕ

pub record Candidate : Type 0 where
  pub run_id : ℕ
  pub passed : Bool
  pub compatible : Bool
  pub matched_metric_count : ℕ
  pub recommended : Bool

abbrev pub same_option : Option ℕ → Option ℕ → Bool
same_option none none = true
same_option (some a) (some b) = a == b
same_option _ _ = false

abbrev pub is_incompatible : Assessment → Bool
is_incompatible (incompatible _) = true
is_incompatible _ = false

abbrev pub is_changed : Assessment → Bool
is_changed (changed _) = true
is_changed _ = false

module _ {S V : Type 0} where
  abbrev pub keys : List (MetricEntry S V) → List S
  keys [] = []
  keys (m ∷ ms) = m.key ∷ keys ms

  abbrev value_of : Option (MetricEntry S V) → Option V
  value_of none = none
  value_of (some m) = some m.value

  abbrev pub is_matched : Row S V → Bool
  is_matched row = is_changed row.assessment

  abbrev pub has_no_metrics : ComparedRun S V → Bool
  has_no_metrics run = elim run.metrics [ [] ↦ true | _ ∷ _ ↦ false ]

module _ {S V : Type 0} (d : Discrete S) where
  abbrev pub has_metric_key : S → MetricEntry S V → Bool
  has_metric_key k m = same d m.key k

  -- `{item["key"]: item for item in metrics}`: of one key the last entry, at the place of the first.
  unfoldable pub store : MetricEntry S V → List (MetricEntry S V) → List (MetricEntry S V)
  store m [] = m ∷ []
  store m (x ∷ xs) = let rest = store m xs in if has_metric_key m.key x then m ∷ xs else x ∷ rest

  unfoldable pub by_key : List (MetricEntry S V) → List (MetricEntry S V) → List (MetricEntry S V)
  unfolding store
  by_key stored [] = stored
  by_key stored (m ∷ ms) = by_key (store m stored) ms

  abbrev pub is_new : List (MetricEntry S V) → MetricEntry S V → Bool
  is_new targets m = not (any (has_metric_key m.key) targets)

  -- The keys of the target, and those that only the baseline has.
  unfoldable pub ordered_keys : List (MetricEntry S V) → List (MetricEntry S V) → List S
  ordered_keys targets baselines = keys targets ++ keys (select (is_new targets) baselines)

module _ {S V : Type 0} (d : Discrete S) (is_empty : S → Bool) (assess : V → V → Change) where
  pub compare_limits : Option ℕ → Option ℕ → V → V → Assessment
  compare_limits (some a) (some b) target baseline =
      if not (a == b) then incompatible limits else changed (assess target baseline)
  compare_limits _ _ target baseline = incompatible no_limit

  pub compare_entries : MetricEntry S V → MetricEntry S V → Assessment
  unfolding compare_limits
  compare_entries target baseline =
      if not (same d target.unit baseline.unit)
      then incompatible units
      else if is_empty target.script_checksum || is_empty baseline.script_checksum
      then incompatible no_script
      else if not (same d target.script_checksum baseline.script_checksum)
      then incompatible scripts
      else compare_limits target.max_latency_ns baseline.max_latency_ns target.value baseline.value

  pub assessment_of : Option (MetricEntry S V) → Option (MetricEntry S V) → Assessment
  unfolding compare_entries
  assessment_of none baseline = missing
  assessment_of (some target) none = added
  assessment_of (some target) (some baseline) = compare_entries target baseline

  pub row_of : List (MetricEntry S V) → List (MetricEntry S V) → S → Row S V
  unfolding assessment_of
  row_of targets baselines k = record {
    key = k;
    baseline_value = value_of (find (has_metric_key d k) baselines);
    target_value = value_of (find (has_metric_key d k) targets);
    assessment =
        assessment_of (find (has_metric_key d k) targets) (find (has_metric_key d k) baselines);
  }

  unfoldable pub comparison_rows : List (MetricEntry S V) → List (MetricEntry S V) → List (Row S V)
  unfolding row_of ordered_keys by_key
  comparison_rows targets baselines =
      map (row_of (by_key d [] targets) (by_key d [] baselines))
        (ordered_keys d (by_key d [] targets) (by_key d [] baselines))

  pub comparison_of : ComparedRun S V → ComparedRun S V → Comparison S V
  unfolding comparison_rows
  comparison_of target baseline =
      let rows = comparison_rows target.metrics baseline.metrics in
      let matched = count_if is_matched rows in
      record {
        rows = rows;
        compatible =
            same_option target.workflow_version_id baseline.workflow_version_id
            && not (any (λ (row : Row S V). is_incompatible row.assessment) rows)
            && not (matched == 0);
        matched = matched;
      }

  unfoldable pub compare_runs : ComparedRun S V → ComparedRun S V → Result (Comparison S V)
  unfolding comparison_of
  compare_runs target baseline =
      if has_no_metrics target
      then raised (http_exception target_metrics_required 409)
      else if has_no_metrics baseline
      then raised (http_exception baseline_metrics_required 409)
      else if not (target.scenario_id == baseline.scenario_id)
      then raised (http_exception baseline_scenario_mismatch 400)
      else ok (comparison_of target baseline)

  pub candidate_of : Bool → ComparedRun S V → Comparison S V → Candidate
  candidate_of assigned run c = record {
    run_id = run.id;
    passed = run.passed;
    compatible = c.compatible;
    matched_metric_count = c.matched;
    recommended = c.compatible && run.passed && not assigned;
  }

  -- The loop over the completed runs of the scenario, which a query gives, latest first; whether a
  -- recommendation has been assigned is its first argument.
  unfoldable pub candidates_from : Bool → ComparedRun S V → List (ComparedRun S V) → List Candidate
  unfolding candidate_of
  candidates_from assigned target [] = []
  candidates_from assigned target (run ∷ runs) = elim (compare_runs target run) [
    | raised e ↦ candidates_from assigned target runs
    | ok c ↦
        candidate_of assigned run c
        ∷ candidates_from (assigned || (candidate_of assigned run c).recommended) target runs
  ]

  unfoldable pub comparison_candidates : ComparedRun S V → List (ComparedRun S V) → List Candidate
  unfolding candidates_from
  comparison_candidates target runs = candidates_from false target runs
