-- ===== src/Examples/Latencies.antt =====
-- The theorems about statistics files at a file of four rows.
use open_slt.Prelude.{
  ℕ, ◌≤◌, Bool, true, ◌≡◌, none, some, List, [], ◌∷◌, String, count_if, ◌==◌, All, ℕ_discrete,
}
use open_slt.Statistics.{
  ℤ, pos, negsuc, ℤ-discrete, cell, Row, batch_interval, without_header, read_values, batch_value,
  count_value, read_batch_row, read_batch_rows, read_batch_values, sort,
}
use open_slt.Statistics.Sorting.{IsSorted}
use open_slt.Statistics.Values.{accounted, holds_value, read_values-accounted}
use open_slt.Statistics.Batches.{IsCounted, read_batch_values-IsCounted}
use open_slt.Statistics.Output.{Output, reading_of, build_output}
use open_slt.Statistics.Output.Success.{BuildOutcome, build_output-BuildOutcome}
use open_slt.Errors.{ok}

abbrev row_of : ℤ → ℤ → Row
row_of time latency =
    none
    ∷ none
    ∷ none
    ∷ none
    ∷ none
    ∷ none
    ∷ none
    ∷ none
    ∷ some time
    ∷ none
    ∷ some latency
    ∷ none
    ∷ []

-- a header, a batch of two orders, a negative latency and a row that is cut off
abbrev file : List Row
file =
    []
    ∷ row_of (pos 100) (pos 30)
    ∷ row_of (pos 100) (pos 50)
    ∷ row_of (pos 101) (negsuc 4)
    ∷ (none ∷ [])
    ∷ []

abbrev any_name : String → Bool
any_name marker = true

read_values-accounted_example :
    let r = read_values file 10 40 in
    (accounted r ≡ 4)
    × IsSorted 0 r.values
    × ((v : ℕ)
        → count_if (λ x. x == v) r.values ≡ count_if (holds_value 10 40 v) (without_header file))
read_values-accounted_example = read_values-accounted file 10 40

read_batch_values-IsCounted_example :
    let r = read_batch_values file 40 batch_interval in
    (accounted r ≤ 4) × IsSorted 0 r.values × All (IsCounted batch_interval 40) r.values
read_batch_values-IsCounted_example = read_batch_values-IsCounted file 40 batch_interval

abbrev interval_output : Output (List ℕ)
interval_output = record {
  sample_count = 1;
  excluded_counts = record { above_limit = 0; negative = 1; invalid = 1 };
  metrics = 20 ∷ [];
}

build_output-BuildOutcome_example :
    BuildOutcome (λ values. values) any_name file 40 batch_interval (ok interval_output)
unfolding build_output reading_of read_batch_values read_batch_rows read_batch_row batch_value
    count_value sort cell ℤ-discrete ℕ_discrete
build_output-BuildOutcome_example =
    build_output-BuildOutcome (λ values. values) any_name file 40 batch_interval
