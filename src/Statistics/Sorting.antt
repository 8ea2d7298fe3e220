-- ===== src/Statistics/Sorting.antt =====
-- Lemmas on `values.sort()` of backend/app/builtin_statistics.py.
use open_slt.Prelude.{
  Bool-cases, inl, inr, ℕ, suc, ◌≤◌, Bool, ◌≡◌, ◌∙◌, refl, List, [], ◌∷◌, arith, leb, length, All,
  count_if,
}
use open_slt.Statistics.{insert, sort}

-- The numbers do not fall.
abbrev pub IsSorted : ℕ → List ℕ → Type 0
IsSorted n [] = Unit
IsSorted n (x ∷ xs) = (n ≤ x) × IsSorted x xs

insert-IsSorted : (n x : ℕ) (xs : List ℕ) → n ≤ x → IsSorted n xs → IsSorted n (insert x xs)
unfolding insert
insert-IsSorted n x [] h k = (h, tt)
insert-IsSorted n x (y ∷ ys) h k = elim (Bool-cases (leb x y)) [
  | inl b ↦ rw b (h, (ground arith, k.1))
  | inr b ↦ rw b (k.0, insert-IsSorted y x ys (ground arith) k.1)
]

pub sort-IsSorted : (xs : List ℕ) → IsSorted 0 (sort xs)
unfolding sort
sort-IsSorted [] = tt
sort-IsSorted (x ∷ xs) = insert-IsSorted 0 x (sort xs) (omega arith) (sort-IsSorted xs)

count_if-insert :
    (p : ℕ → Bool) (x : ℕ) (xs : List ℕ) → count_if p (insert x xs) ≡ count_if p (x ∷ xs)
unfolding insert
count_if-insert p x [] = refl
count_if-insert p x (y ∷ ys) = ground (arith, count_if-insert p x ys)

pub count_if-sort : (p : ℕ → Bool) (xs : List ℕ) → count_if p (sort xs) ≡ count_if p xs
unfolding sort
count_if-sort p [] = refl
count_if-sort p (x ∷ xs) = count_if-insert p x (sort xs) ∙ ground (arith, count_if-sort p xs)

length-insert : (x : ℕ) (xs : List ℕ) → length (insert x xs) ≡ suc (length xs)
unfolding insert
length-insert x [] = refl
length-insert x (y ∷ ys) = ground (arith, length-insert x ys)

pub length-sort : (xs : List ℕ) → length (sort xs) ≡ length xs
unfolding sort
length-sort [] = refl
length-sort (x ∷ xs) = length-insert x (sort xs) ∙ ground (arith, length-sort xs)

All-insert : (P : ℕ → Type 0) (x : ℕ) (xs : List ℕ) → P x → All P xs → All P (insert x xs)
unfolding insert
All-insert P x [] h k = (h, tt)
All-insert P x (y ∷ ys) h k = elim (Bool-cases (leb x y)) [
  | inl b ↦ rw b (h, k)
  | inr b ↦ rw b (k.0, All-insert P x ys h k.1)
]

pub All-sort : (P : ℕ → Type 0) (xs : List ℕ) → All P xs → All P (sort xs)
unfolding sort
All-sort P [] h = tt
All-sort P (x ∷ xs) h = All-insert P x (sort xs) h.0 (All-sort P xs h.1)
