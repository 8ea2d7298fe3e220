-- ===== src/Statistics/Output/Success.antt =====
-- What `build_output` of backend/app/builtin_statistics.py answers: which output, and when none.
use open_slt.Prelude.{
  ℕ, ◌<◌, Bool, true, false, ◌≡◌, ◌⊎◌, inl, inr, refl, String, Option, some, none, List, [], ◌∷◌,
  arith, ltb, find, length, Bool-cases,
}
use open_slt.Errors.{Result, ok, raised, value_error}
use open_slt.Statistics.{
  Row, Excluded, Reading, Mode, ordinary, batch_first, batch_interval, other_mode, read_values,
  read_batch_values,
}
use open_slt.Statistics.Output.{
  Output, output_of, summarise, ordinary_reading, batch_reading, csv_value_columns, first_column,
  value_column, reading_of, build_output,
}

-- The first entry of `CSV_VALUE_COLUMNS` whose marker is in the name of the file.
abbrev pub marked_column : (String → Bool) → Option (String × ℕ)
marked_column in_filename = find (λ p. in_filename p.0) csv_value_columns

-- The readings of a file that a mode allows. An ordinary one is of the column that the name of the file
-- marks; the two of batches are of a file of new orders only.
pub data IsReadingOf (in_filename : String → Bool) (file : List Row) (limit : ℕ)
    : Mode → Reading → Type 0 where
  of_column :
      (marker : String) (column : ℕ)
      → marked_column in_filename ≡ some (marker, column)
      → IsReadingOf in_filename file limit ordinary (read_values file column limit)
  of_first_orders :
      in_filename "rem_client_new_to_market_speed" ≡ true
      → IsReadingOf in_filename file limit batch_first (read_batch_values file limit batch_first)
  of_intervals :
      in_filename "rem_client_new_to_market_speed" ≡ true
      → IsReadingOf in_filename file limit batch_interval
          (read_batch_values file limit batch_interval)

-- Why there is no reading.
pub data HasNoReading (in_filename : String → Bool) : Mode → Type 0 where
  unmarked : marked_column in_filename ≡ none → HasNoReading in_filename ordinary
  no_first_orders :
      in_filename "rem_client_new_to_market_speed" ≡ false → HasNoReading in_filename batch_first
  no_intervals :
      in_filename "rem_client_new_to_market_speed" ≡ false → HasNoReading in_filename batch_interval
  unknown_mode : (n : ℕ) → HasNoReading in_filename (other_mode n)

module _ {M : Type 0} (build_metrics : List ℕ → M) (in_filename : String → Bool)
    (file : List Row) where
  pub data BuildOutcome (limit : ℕ) (mode : Mode) : Result (Output M) → Type 0 where
    has_output :
        (q : Reading)
        → 0 < limit
        → IsReadingOf in_filename file limit mode q
        → 0 < length q.values
        → BuildOutcome limit mode (
            ok record {
              sample_count = length q.values;
              excluded_counts = q.excluded;
              metrics = build_metrics q.values;
            })
    has_no_limit : limit ≡ 0 → BuildOutcome limit mode (raised value_error)
    has_no_reading : HasNoReading in_filename mode → BuildOutcome limit mode (raised value_error)
    has_no_value :
        (q : Reading)
        → IsReadingOf in_filename file limit mode q
        → q.values ≡ []
        → BuildOutcome limit mode (raised value_error)

first_column_lem :
    (in_filename : String → Bool) (cs : List (String × ℕ))
    → first_column in_filename cs
      ≡ (elim (find (λ p. in_filename p.0) cs) [ none ↦ raised value_error | some p ↦ ok p.1 ])
unfolding first_column
first_column_lem in_filename [] = refl
first_column_lem in_filename ((marker, column) ∷ rest) = elim (Bool-cases (in_filename marker)) [
  | inl e ↦ rw e refl
  | inr e ↦ rw e (first_column_lem in_filename rest)
]

module _ (in_filename : String → Bool) (file : List Row) (limit : ℕ) where
  -- either there is a reading, or there is not and why
  abbrev IsAnswer : Mode → Result Reading → Type 0
  IsAnswer mode r =
      ((q : Reading) × (r ≡ ok q) × IsReadingOf in_filename file limit mode q)
      ⊎ ((r ≡ raised value_error) × HasNoReading in_filename mode)

  ordinary-IsAnswer :
      (o : Option (String × ℕ))
      → marked_column in_filename ≡ o
      → IsAnswer ordinary
          (ordinary_reading file limit (elim o [ none ↦ raised value_error | some p ↦ ok p.1 ]))
  unfolding ordinary_reading
  ordinary-IsAnswer none e = inr (refl, unmarked e)
  ordinary-IsAnswer (some (marker, column)) e =
      inl (read_values file column limit, refl, of_column marker column e)

  batch-IsAnswer :
      (mode : Mode)
      → (in_filename "rem_client_new_to_market_speed" ≡ true
          → IsReadingOf in_filename file limit mode (read_batch_values file limit mode))
      → (in_filename "rem_client_new_to_market_speed" ≡ false → HasNoReading in_filename mode)
      → IsAnswer mode (batch_reading in_filename file limit mode)
  unfolding batch_reading
  batch-IsAnswer mode h k = elim (Bool-cases (in_filename "rem_client_new_to_market_speed")) [
    | inl e ↦ rw e (inl (read_batch_values file limit mode, refl, h e))
    | inr e ↦ rw e (inr (refl, k e))
  ]

  reading_of-IsAnswer : (mode : Mode) → IsAnswer mode (reading_of in_filename file limit mode)
  unfolding reading_of value_column
  reading_of-IsAnswer ordinary =
      rw (first_column_lem in_filename csv_value_columns)
        (ordinary-IsAnswer (marked_column in_filename) refl)
  reading_of-IsAnswer batch_first = batch-IsAnswer batch_first of_first_orders no_first_orders
  reading_of-IsAnswer batch_interval = batch-IsAnswer batch_interval of_intervals no_intervals
  reading_of-IsAnswer (other_mode n) = inr (refl, unknown_mode n)

module _ {M : Type 0} (build_metrics : List ℕ → M) (in_filename : String → Bool)
    (file : List Row) where
  output_of-BuildOutcome :
      (limit : ℕ) (mode : Mode) (vs : List ℕ) (excluded : Excluded)
      → 0 < limit
      → IsReadingOf in_filename file limit mode (record { values = vs; excluded = excluded })
      → BuildOutcome build_metrics in_filename file limit mode (output_of build_metrics vs excluded)
  unfolding output_of
  output_of-BuildOutcome limit mode [] excluded h k =
      has_no_value (record { values = []; excluded = excluded }) k refl
  output_of-BuildOutcome limit mode (v ∷ vs) excluded h k =
      has_output (record { values = v ∷ vs; excluded = excluded }) h k (omega arith)

  summarise-BuildOutcome :
      (limit : ℕ) (mode : Mode) (r : Result Reading)
      → 0 < limit
      → IsAnswer in_filename file limit mode r
      → BuildOutcome build_metrics in_filename file limit mode (summarise build_metrics r)
  unfolding summarise
  summarise-BuildOutcome limit mode r h (inl (q, e, k)) =
      rw e (output_of-BuildOutcome limit mode q.values q.excluded h k)
  summarise-BuildOutcome limit mode r h (inr (e, k)) = rw e (has_no_reading k)

  -- `build_output` gives an output where the limit is positive, the mode allows a reading of the file by
  -- its name (an ordinary one of the column that the first fitting entry of the table gives, one of
  -- batches of a file of new orders) and that reading has a value: the output has the number of the
  -- values of this reading, its excluded counts, and the metrics of its values. Otherwise one of these
  -- fails and `build_output` raises `ValueError`.
  pub build_output-BuildOutcome :
      (limit : ℕ) (mode : Mode)
      → BuildOutcome build_metrics in_filename file limit mode
          (build_output build_metrics in_filename file limit mode)
  unfolding build_output
  build_output-BuildOutcome limit mode = elim (Bool-cases (ltb limit 1)) [
    | inl e ↦ rw e (has_no_limit (ground (arith, e)))
    | inr e ↦ rw e (
        summarise-BuildOutcome limit mode (reading_of in_filename file limit mode)
          (ground (arith, e)) (reading_of-IsAnswer in_filename file limit mode))
  ]
