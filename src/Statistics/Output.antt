-- ===== src/Statistics/Output.antt =====
-- `value_column` and `build_output` of backend/app/builtin_statistics.py.
pub mod Success
use open_slt.Prelude.{
  ℕ, zero, suc, ◌+◌, ◌<◌, Bool, true, false, not, String, Option, none, some, List, [], ◌∷◌,
  if◌then◌else◌, ltb, length,
}
use open_slt.Errors.{Error, value_error, Result, ok, raised}
use open_slt.Statistics.{
  ℤ, pos, negsuc, Row, Excluded, Reading, Mode, ordinary, batch_first, batch_interval, other_mode,
  read_values, read_batch_values,
}

-- `CSV_VALUE_COLUMNS`.
unfoldable pub csv_value_columns : List (String × ℕ)
csv_value_columns =
    ("rem_market_accept_to_client_speed", 11)
    ∷ ("rem_client_new_to_market_speed", 10)
    ∷ ("rem_client_new_quote_to_market_speed", 10)
    ∷ ("rem_market_accept_quote_to_client_speed", 11)
    ∷ ("rem_client_action_to_market_speed", 10)
    ∷ ("rem_client_action_quote_to_market_speed", 10)
    ∷ []

unfoldable pub first_column : (String → Bool) → List (String × ℕ) → Result ℕ
first_column in_filename [] = raised value_error
first_column in_filename ((marker, column) ∷ rest) =
    let later = first_column in_filename rest in if in_filename marker then ok column else later

unfoldable pub value_column : (String → Bool) → Result ℕ
unfolding first_column csv_value_columns
value_column in_filename = first_column in_filename csv_value_columns

pub record Output (M : Type 0) : Type 0 where
  pub sample_count : ℕ
  pub excluded_counts : Excluded
  pub metrics : M

pub output_of : {M : Type 0} → (List ℕ → M) → List ℕ → Excluded → Result (Output M)
output_of build_metrics [] excluded = raised value_error
output_of build_metrics (v ∷ vs) excluded = ok record {
  sample_count = length (v ∷ vs);
  excluded_counts = excluded;
  metrics = build_metrics (v ∷ vs);
}

pub summarise : {M : Type 0} → (List ℕ → M) → Result Reading → Result (Output M)
unfolding output_of
summarise build_metrics (raised e) = raised e
summarise build_metrics (ok r) = output_of build_metrics r.values r.excluded

pub ordinary_reading : List Row → ℕ → Result ℕ → Result Reading
ordinary_reading file limit (raised e) = raised e
ordinary_reading file limit (ok column) = ok (read_values file column limit)

pub batch_reading : (String → Bool) → List Row → ℕ → Mode → Result Reading
batch_reading in_filename file limit mode =
    if not (in_filename "rem_client_new_to_market_speed")
    then raised value_error
    else ok (read_batch_values file limit mode)

unfoldable pub reading_of : (String → Bool) → List Row → ℕ → Mode → Result Reading
unfolding ordinary_reading batch_reading value_column
reading_of in_filename file limit ordinary = ordinary_reading file limit (value_column in_filename)
reading_of in_filename file limit (other_mode _) = raised value_error
reading_of in_filename file limit mode = batch_reading in_filename file limit mode

unfoldable pub build_output :
    {M : Type 0} → (List ℕ → M) → (String → Bool) → List Row → ℕ → Mode → Result (Output M)
unfolding summarise reading_of
build_output build_metrics in_filename file limit mode =
    if ltb limit 1
    then raised value_error
    else summarise build_metrics (reading_of in_filename file limit mode)
