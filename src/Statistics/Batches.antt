-- ===== src/Statistics/Batches.antt =====
-- What `read_batch_values` of backend/app/builtin_statistics.py counts.
use open_slt.Prelude.{
  ℕ, ◌+◌, ◌≤◌, ◌<◌, true, ◌≡◌, ◌⊎◌, inl, inr, Option, none, some, List, [], ◌∷◌, arith, ltb, leb,
  ◌||◌, length, length-append, All, All-append, Bool-cases,
}
use open_slt.Statistics.{
  ℤ, pos, negsuc, Row, cell, Reading, without_header, Mode, keeps_zero, count_value, BatchState,
  read_batch_row, read_batch_rows, batch_start, read_batch_values,
}
use open_slt.Statistics.Values.{accounted}
use open_slt.Statistics.Sorting.{IsSorted, sort-IsSorted, length-sort, All-sort}

-- Below the limit, and positive but for the first latencies of the batches.
abbrev pub IsCounted : Mode → ℕ → ℕ → Type 0
IsCounted mode limit v = (v < limit) × ((keeps_zero mode ≡ true) ⊎ (0 < v))

module _ (mode : Mode) (limit : ℕ) where
  -- one round adds at most one to what is accounted for, and only values that count
  abbrev Grows : Reading → Reading → Type 0
  Grows r r' =
      (accounted r ≤ accounted r')
      × (accounted r' ≤ accounted r + 1)
      × (All (IsCounted mode limit) r.values → All (IsCounted mode limit) r'.values)

  count_value-Grows : (o : Option ℤ) (r : Reading) → Grows r (count_value mode limit o r)
  unfolding count_value
  count_value-Grows none r = (omega arith, omega arith, λ h. h)
  count_value-Grows (some (negsuc n)) r = (omega arith, omega arith, λ h. h)
  count_value-Grows (some (pos n)) r = elim (Bool-cases (leb limit n)) [
    | inl b ↦ rw b (omega arith, omega arith, λ h. h)
    | inr b ↦ elim (Bool-cases (keeps_zero mode || ltb 0 n)) [
      | inl k ↦
          rw (b, k)
            (
              omega (arith, length-append r.values (n ∷ [])),
              omega (arith, length-append r.values (n ∷ [])),
              λ h. All-append (IsCounted mode limit) r.values n h (ground arith, ground arith),
            )
      | inr k ↦ rw (b, k) (omega arith, omega arith, λ h. h)
    ]
  ]

  read_batch_row-Grows :
      (t l : Option ℤ) (s : BatchState) → Grows s.reading (read_batch_row mode limit t l s).reading
  unfolding read_batch_row
  read_batch_row-Grows (some t) (some (pos n)) s = count_value-Grows _ s.reading
  read_batch_row-Grows (some t) (some (negsuc n)) s = (omega arith, omega arith, λ h. h)
  read_batch_row-Grows (some t) none s = (omega arith, omega arith, λ h. h)
  read_batch_row-Grows none l s = (omega arith, omega arith, λ h. h)

  read_batch_rows-accounted :
      (rows : List Row) (s : BatchState)
      → All (IsCounted mode limit) s.reading.values
      → (accounted (read_batch_rows mode limit rows s).reading ≤ accounted s.reading + length rows)
        × All (IsCounted mode limit) (read_batch_rows mode limit rows s).reading.values
  unfolding read_batch_rows
  read_batch_rows-accounted [] s h = (omega arith, h)
  read_batch_rows-accounted (row ∷ rows) s h =
      let g = read_batch_row-Grows (cell row 8) (cell row 10) s in
      let rest =
        read_batch_rows-accounted rows (read_batch_row mode limit (cell row 8) (cell row 10) s)
          (g.2 h) in
      (omega (arith, g.1, rest.0), rest.1)

-- `read_batch_values` counts at most one value or exclusion for a row below the header. Its values
-- are in ascending order and below the limit, and but for the first latencies of the batches they
-- are positive.
pub read_batch_values-IsCounted :
    (file : List Row) (limit : ℕ) (mode : Mode)
    → let r = read_batch_values file limit mode in
      (accounted r ≤ length (without_header file))
      × IsSorted 0 r.values
      × All (IsCounted mode limit) r.values
unfolding read_batch_values
read_batch_values-IsCounted file limit mode =
    let read = read_batch_rows-accounted mode limit (without_header file) batch_start tt in
    (
      omega (
        arith,
        read.0,
        length-sort (read_batch_rows mode limit (without_header file) batch_start).reading.values,
      ),
      sort-IsSorted (read_batch_rows mode limit (without_header file) batch_start).reading.values,
      All-sort (IsCounted mode limit)
          (read_batch_rows mode limit (without_header file) batch_start).reading.values read.1,
    )
