-- ===== src/Statistics.antt =====
-- The built-in statistics of backend/app/builtin_statistics.py: which values of a CSV file are
-- counted. A row is given by what `int(cell.strip())` makes of its cells, an integer or an
-- exception; a file name by its substring test. The average and the standard deviation are floats:
-- what `build_metrics` makes of the sorted values is a parameter.
pub mod Sorting
pub mod Values
pub mod Batches
pub mod Output
use open_slt.Prelude.{
  ℕ, zero, suc, ◌+◌, ◌-◌, ◌≤◌, Bool, true, false, not, ◌&&◌, ◌||◌, String, Option, none, some, List,
  [], ◌∷◌, ◌++◌, if◌then◌else◌, ltb, leb, ◌==◌, length, same, ℕ_discrete,
}
use open_slt.Errors.{Error, value_error, Result, ok, raised}

-- `negsuc n` is -(n + 1).
pub data ℤ : Type 0 where
  pos : ℕ → ℤ
  negsuc : ℕ → ℤ

unfoldable pub ℤ-discrete : Discrete ℤ
ℤ-discrete = hlevel ℕ_discrete

-- a - b, as an integer.
abbrev pub sub_ℕ : ℕ → ℕ → ℤ
sub_ℕ a b = if leb b a then pos (a - b) else negsuc (b - a - 1)

abbrev pub Row : Type 0
Row = List (Option ℤ)

-- `int(row[n].strip())`: nothing where there is no such cell or it is not an integer.
unfoldable pub cell : Row → ℕ → Option ℤ
cell [] n = none
cell (c ∷ cs) zero = c
cell (c ∷ cs) (suc n) = cell cs n

pub record Excluded : Type 0 where
  pub above_limit : ℕ
  pub negative : ℕ
  pub invalid : ℕ

-- What a reading has come to: the values so far, in the order of the rows, and the counts.
pub record Reading : Type 0 where
  pub values : List ℕ
  pub excluded : Excluded

abbrev pub nothing_read : Reading
nothing_read = record {
  values = [];
  excluded = record { above_limit = 0; negative = 0; invalid = 0 };
}

abbrev pub count_above : Reading → Reading
count_above r = record r {
  excluded = record (r.excluded) { above_limit = r.excluded.above_limit + 1 };
}

abbrev pub count_negative : Reading → Reading
count_negative r = record r {
  excluded = record (r.excluded) { negative = r.excluded.negative + 1 };
}

abbrev pub count_invalid : Reading → Reading
count_invalid r = record r { excluded = record (r.excluded) { invalid = r.excluded.invalid + 1 } }

abbrev pub keep : ℕ → Reading → Reading
keep v r = record r { values = r.values ++ v ∷ [] }

-- One round of the loop of `read_values`, for what the column of the row holds. The limit is
-- positive, so a negative value is not above it.
unfoldable pub read_value : ℕ → Option ℤ → Reading → Reading
read_value limit none r = count_invalid r
read_value limit (some (pos n)) r = if ltb limit n then count_above r else keep n r
read_value limit (some (negsuc n)) r = count_negative r

unfoldable pub read_rows : ℕ → ℕ → List Row → Reading → Reading
unfolding read_value cell
read_rows column limit [] r = r
read_rows column limit (row ∷ rows) r =
    read_rows column limit rows (read_value limit (cell row column) r)

insert : ℕ → List ℕ → List ℕ
insert x [] = x ∷ []
insert x (y ∷ ys) = let later = insert x ys in if leb x y then x ∷ y ∷ ys else y ∷ later

-- `values.sort()`.
unfoldable pub sort : List ℕ → List ℕ
unfolding insert
sort [] = []
sort (x ∷ xs) = insert x (sort xs)

abbrev pub sort_values : Reading → Reading
sort_values r = record r { values = sort r.values }

abbrev pub without_header : List Row → List Row
without_header [] = []
without_header (header ∷ rows) = rows

-- `read_values`.
unfoldable pub read_values : List Row → ℕ → ℕ → Reading
unfolding read_rows sort
read_values file column limit =
    sort_values (read_rows column limit (without_header file) nothing_read)

pub data Mode : Type 0 where
  ordinary batch_first batch_interval : Mode
  other_mode : ℕ → Mode

-- The variables of the loop of `read_batch_values`.
pub record BatchState : Type 0 where
  pub reading : Reading
  pub previous_timestamp : Option ℤ
  pub previous_latency : Option ℕ

same_time : Option ℤ → ℤ → Bool
same_time none t = false
same_time (some u) t = same ℤ-discrete u t

-- `value`, for a latency that is not negative.
unfoldable pub batch_value : Mode → Bool → Option ℕ → ℕ → Option ℤ
batch_value batch_first true previous n = some (pos n)
batch_value batch_interval false (some p) n = some (sub_ℕ n p)
batch_value mode first previous n = none

abbrev keeps_zero : Mode → Bool
keeps_zero batch_first = true
keeps_zero _ = false

-- The tests on `value` at the end of the round.
unfoldable pub count_value : Mode → ℕ → Option ℤ → Reading → Reading
count_value mode limit none r = r
count_value mode limit (some (negsuc n)) r = count_negative r
count_value mode limit (some (pos n)) r =
    if leb limit n then count_above r else if keeps_zero mode || ltb 0 n then keep n r else r

-- One round, for what `row[8]` and `row[10]` hold.
unfoldable pub read_batch_row : Mode → ℕ → Option ℤ → Option ℤ → BatchState → BatchState
unfolding batch_value count_value same_time
read_batch_row mode limit (some t) (some (pos n)) s = record {
  reading =
      count_value mode limit
        (batch_value mode (not (same_time s.previous_timestamp t)) s.previous_latency n) s.reading;
  previous_timestamp = some t;
  previous_latency = some n;
}
read_batch_row mode limit (some t) (some (negsuc n)) s = record {
  reading = count_negative s.reading;
  previous_timestamp = some t;
  previous_latency = none;
}
read_batch_row mode limit timestamp _ s = record {
  reading = count_invalid s.reading;
  previous_timestamp = timestamp;
  previous_latency = none;
}

unfoldable pub read_batch_rows : Mode → ℕ → List Row → BatchState → BatchState
unfolding read_batch_row cell
read_batch_rows mode limit [] s = s
read_batch_rows mode limit (row ∷ rows) s =
    read_batch_rows mode limit rows (read_batch_row mode limit (cell row 8) (cell row 10) s)

abbrev pub batch_start : BatchState
batch_start = record { reading = nothing_read; previous_timestamp = none; previous_latency = none }

-- `read_batch_values`.
unfoldable pub read_batch_values : List Row → ℕ → Mode → Reading
unfolding read_batch_rows sort
read_batch_values file limit mode =
    sort_values ((read_batch_rows mode limit (without_header file) batch_start).reading)
