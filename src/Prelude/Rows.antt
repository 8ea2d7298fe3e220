-- ===== src/Prelude/Rows.antt =====
-- How updates of rows act on what is said of all rows, and on the number of rows with a property.
use Prim.Native.Nat.{◌+◌}
use mathlib.Core.Path.{◌≡◌, refl}
use mathlib.Core.Bool.{Bool, true, false}
use mathlib.Core.Option.{none, some}
use mathlib.Core.List.{List, [], ◌∷◌, ◌++◌}
use native.Mathlib.Omega.{arith}
use open_slt.Prelude.Tests.{if◌then◌else◌, if-both}
use open_slt.Prelude.Lists.{length, All, any, find, count_if, update_where, modify_first}

module _ {ℓ} {A : Type ℓ} where
  pub All-append {κ} :
      (P : A → Type κ) (xs : List A) (y : A) → All P xs → P y → All P (xs ++ y ∷ [])
  All-append P [] y h k = (k, tt)
  All-append P (x ∷ xs) y h k = (h.0, All-append P xs y h.1 k)

  pub All-map_weaken {κ} :
      (P Q : A → Type κ) → ((x : A) → P x → Q x) → (xs : List A) → All P xs → All Q xs
  All-map_weaken P Q f [] h = tt
  All-map_weaken P Q f (x ∷ xs) h = (f x h.0, All-map_weaken P Q f xs h.1)

  pub All-update_where {κ} :
      (P : A → Type κ) (p : A → Bool) (f : A → A)
      → ((x : A) → p x ≡ true → P x → P (f x))
      → (xs : List A) → All P xs
      → All P (update_where p f xs)
  All-update_where P p f k [] h = tt
  All-update_where P p f k (x ∷ xs) h = (one (p x) refl, All-update_where P p f k xs h.1)
    where
      one : (b : Bool) → p x ≡ b → P (if b then f x else x)
      one true e = k x e h.0
      one false e = h.0

  pub All-modify_first {κ} :
      (P : A → Type κ) (p : A → Bool) (f : A → A)
      → ((x : A) → P x → P (f x))
      → (xs : List A) → All P xs
      → All P (modify_first p f xs)
  All-modify_first P p f k [] h = tt
  All-modify_first P p f k (x ∷ xs) h =
      if-both (All P) (p x) (k x h.0, h.1) (h.0, All-modify_first P p f k xs h.1)

  pub count_if-append :
      (q : A → Bool) (xs ys : List A) → count_if q (xs ++ ys) ≡ count_if q xs + count_if q ys
  count_if-append q [] ys = ground arith
  count_if-append q (x ∷ xs) ys = ground (arith, count_if-append q xs ys)

  pub count_if-update_where :
      (q p : A → Bool) (f : A → A)
      → ((x : A) → q (f x) ≡ q x)
      → (xs : List A) → count_if q (update_where p f xs) ≡ count_if q xs
  count_if-update_where q p f k [] = refl
  count_if-update_where q p f k (x ∷ xs) = ground (arith, k x, count_if-update_where q p f k xs)

  pub count_if-modify_first :
      (q p : A → Bool) (f : A → A)
      → ((x : A) → q (f x) ≡ q x)
      → (xs : List A) → count_if q (modify_first p f xs) ≡ count_if q xs
  count_if-modify_first q p f k [] = refl
  count_if-modify_first q p f k (x ∷ xs) = ground (arith, k x, count_if-modify_first q p f k xs)

  -- what is not found does not occur
  pub find-none : (q : A → Bool) (xs : List A) → find q xs ≡ none → count_if q xs ≡ 0
  find-none q [] h = refl
  find-none q (x ∷ xs) h = ground (arith, find-none q xs)

  pub find-some : (q : A → Bool) (xs : List A) (a : A) → find q xs ≡ some a → q a ≡ true
  find-some q [] a h = ground arith
  find-some q (x ∷ xs) a h = ground (arith, find-some q xs a)

  -- a row that the update passes over is still found
  pub find-update_where :
      (q p : A → Bool) (f : A → A)
      → ((x : A) → q (f x) ≡ q x)
      → (xs : List A) (a : A) → p a ≡ false
      → find q xs ≡ some a
      → find q (update_where p f xs) ≡ some a
  find-update_where q p f k [] a n h = h
  find-update_where q p f k (x ∷ xs) a n h = ground (arith, k x, find-update_where q p f k xs a n)

  pub any_of_find :
      (q p : A → Bool) (xs : List A) (a : A) → p a ≡ true → find q xs ≡ some a → any p xs ≡ true
  any_of_find q p [] a n h = cc
  any_of_find q p (x ∷ xs) a n h = ground (arith, any_of_find q p xs a n)

  -- the first row of a kind, after a change that keeps rows of their kind
  pub find-modify_first :
      (q : A → Bool) (f : A → A)
      → ((x : A) → q (f x) ≡ q x)
      → (xs : List A) (a : A) → find q xs ≡ some a
      → find q (modify_first q f xs) ≡ some (f a)
  find-modify_first q f k [] a h = ground arith
  find-modify_first q f k (x ∷ xs) a h = ground (arith, k x, find-modify_first q f k xs a)

  pub find-append_new :
      (q : A → Bool) (xs : List A) (a : A)
      → q a ≡ true
      → find q xs ≡ none
      → find q (xs ++ a ∷ []) ≡ some a
  find-append_new q [] a n h = ground arith
  find-append_new q (x ∷ xs) a n h = ground (arith, find-append_new q xs a n)

  -- the row that the update takes is found with its change
  pub find-update_where_taken :
      (q p : A → Bool) (f : A → A)
      → ((x : A) → q (f x) ≡ q x)
      → (xs : List A) (a : A) → p a ≡ true
      → find q xs ≡ some a
      → find q (update_where p f xs) ≡ some (f a)
  find-update_where_taken q p f k [] a n h = ground arith
  find-update_where_taken q p f k (x ∷ xs) a n h =
      ground (arith, k x, k a, find-update_where_taken q p f k xs a n)

  pub length-modify_first :
      (q : A → Bool) (f : A → A) (xs : List A) → length (modify_first q f xs) ≡ length xs
  length-modify_first q f [] = refl
  length-modify_first q f (x ∷ xs) = ground (arith, length-modify_first q f xs)
