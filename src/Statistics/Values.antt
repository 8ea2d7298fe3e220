-- ===== src/Statistics/Values.antt =====
-- What `read_values` of backend/app/builtin_statistics.py counts.
use open_slt.Prelude.{
  ◌&&◌, count_if-append, ℕ, suc, ◌+◌, Bool, false, ◌≡◌, ◌∙◌, Option, none, some, List, [], ◌∷◌,
  arith, if◌then◌else◌, leb, ◌==◌, length, length-append, count_if,
}
use open_slt.Statistics.Sorting.{IsSorted, sort-IsSorted, count_if-sort, length-sort}
use open_slt.Statistics.{
  ℤ, pos, negsuc, Row, cell, Reading, nothing_read, read_value, read_rows, without_header,
  read_values,
}

-- how many rows a reading accounts for
abbrev pub accounted : Reading → ℕ
accounted r =
    length r.values + (r.excluded.above_limit + (r.excluded.negative + r.excluded.invalid))

-- this is the value, and it is within the limit
abbrev pub is_value : ℕ → ℕ → Option ℤ → Bool
is_value limit v none = false
is_value limit v (some (pos n)) = n == v && leb n limit
is_value limit v (some (negsuc n)) = false

abbrev pub holds_value : ℕ → ℕ → ℕ → Row → Bool
holds_value column limit v row = is_value limit v (cell row column)

-- what one round adds
module _ (limit : ℕ) where
  accounted-read_value :
      (z : Option ℤ) (r : Reading) → accounted (read_value limit z r) ≡ suc (accounted r)
  unfolding read_value
  accounted-read_value none r = omega arith
  accounted-read_value (some (negsuc n)) r = omega arith
  accounted-read_value (some (pos n)) r = ground (arith, length-append r.values (n ∷ []))

  count-read_value :
      (v : ℕ) (z : Option ℤ) (r : Reading)
      → count_if (λ x. x == v) (read_value limit z r).values
        ≡ count_if (λ x. x == v) r.values + (if is_value limit v z then 1 else 0)
  unfolding read_value
  count-read_value v none r = omega arith
  count-read_value v (some (negsuc n)) r = omega arith
  count-read_value v (some (pos n)) r =
      ground (arith, count_if-append (λ x. x == v) r.values (n ∷ []))

accounted-read_rows :
    (column limit : ℕ) (rows : List Row) (r : Reading)
    → accounted (read_rows column limit rows r) ≡ accounted r + length rows
unfolding read_rows
accounted-read_rows column limit [] r = omega arith
accounted-read_rows column limit (row ∷ rows) r = omega (
  arith,
  accounted-read_rows column limit rows (read_value limit (cell row column) r),
  accounted-read_value limit (cell row column) r,
)

count-read_rows :
    (column limit v : ℕ) (rows : List Row) (r : Reading)
    → count_if (λ x. x == v) (read_rows column limit rows r).values
      ≡ count_if (λ x. x == v) r.values + count_if (holds_value column limit v) rows
unfolding read_rows
count-read_rows column limit v [] r = omega arith
count-read_rows column limit v (row ∷ rows) r = ground (
  arith,
  count-read_rows column limit v rows (read_value limit (cell row column) r),
  count-read_value limit v (cell row column) r,
)

-- `read_values` accounts for every row below the header exactly once, as a value or as excluded. Its
-- values are in ascending order, and each number is among them exactly as often as the column of
-- the file holds it, if it is not negative and within the limit, and never otherwise.
pub read_values-accounted :
    (file : List Row) (column limit : ℕ)
    → let r = read_values file column limit in
      (accounted r ≡ length (without_header file))
      × IsSorted 0 r.values
      × ((v : ℕ)
          → count_if (λ x. x == v) r.values
            ≡ count_if (holds_value column limit v) (without_header file))
unfolding read_values
read_values-accounted file column limit = (
  omega (
    arith,
    accounted-read_rows column limit (without_header file) nothing_read,
    length-sort (read_rows column limit (without_header file) nothing_read).values,
  ),
  sort-IsSorted (read_rows column limit (without_header file) nothing_read).values,
  λ v.
      count_if-sort (λ x. x == v) (read_rows column limit (without_header file) nothing_read).values
      ∙ omega (arith, count-read_rows column limit v (without_header file) nothing_read),
)
