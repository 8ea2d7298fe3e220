-- ===== src/Comparison/Accounting.antt =====
-- Which rows `_comparison_rows` of backend/app/services/run_comparisons.py makes of the metrics of two
-- runs.
use open_slt.Prelude.{
  suc, subst, if-both, ℕ, Bool, true, false, not, ◌&&◌, ◌||◌, ◌≡◌, ◌∙◌, ap, refl, List, [], ◌∷◌,
  map, count_if, count_if-append, any, select, arith, if◌then◌else◌, if-cases, same, Bool-cases,
  inl, inr,
}
use open_slt.Comparison.{
  Change, MetricEntry, Row, has_metric_key, store, by_key, row_of, keys, is_new, ordered_keys,
  comparison_rows,
}

abbrev is_key : {S : Type 0} → Discrete S → S → S → Bool
is_key d k j = same d j k

one_if : Bool → ℕ
one_if b = if b then 1 else 0

same_key : {S : Type 0} (d : Discrete S) (j k : S) → same d j k ≡ true → j ≡ k
same_key d j k e = ground (arith, e)

module _ {S V : Type 0} (d : Discrete S) where
  -- Each key once.
  abbrev AreKeyed : List (MetricEntry S V) → Type 0
  AreKeyed [] = Unit
  AreKeyed (m ∷ ms) = (any (has_metric_key d m.key) ms ≡ false) × AreKeyed ms

  any-store :
      (k : S) (m : MetricEntry S V) (xs : List (MetricEntry S V))
      → any (has_metric_key d k) (store d m xs) ≡ (same d m.key k || any (has_metric_key d k) xs)
  unfolding store
  any-store k m [] = ground arith
  any-store k m (x ∷ xs) = ground (arith, any-store k m xs)

  store-AreKeyed :
      (m : MetricEntry S V) (xs : List (MetricEntry S V)) → AreKeyed xs → AreKeyed (store d m xs)
  unfolding store
  store-AreKeyed m [] h = (refl, tt)
  store-AreKeyed m (x ∷ xs) h =
      if-cases AreKeyed (has_metric_key d m.key x) (λ e. (ground (arith, e, h.0), h.1))
        (λ e. (ground (arith, e, h.0, any-store x.key m xs), store-AreKeyed m xs h.1))

  by_key-AreKeyed :
      (stored ms : List (MetricEntry S V)) → AreKeyed stored → AreKeyed (by_key d stored ms)
  unfolding by_key
  by_key-AreKeyed stored [] h = h
  by_key-AreKeyed stored (m ∷ ms) h =
      by_key-AreKeyed (store d m stored) ms (store-AreKeyed m stored h)

  any-by_key :
      (k : S) (stored ms : List (MetricEntry S V))
      → any (has_metric_key d k) (by_key d stored ms)
        ≡ (any (has_metric_key d k) stored || any (has_metric_key d k) ms)
  unfolding by_key
  any-by_key k stored [] = ground arith
  any-by_key k stored (m ∷ ms) =
      any-by_key k (store d m stored) ms ∙ ground (arith, any-store k m stored)

  count-keys :
      (k : S) (ms : List (MetricEntry S V))
      → AreKeyed ms
      → count_if (is_key d k) (keys ms) ≡ one_if (any (has_metric_key d k) ms)
  unfolding one_if
  count-keys k [] h = refl
  count-keys k (m ∷ ms) h = elim (Bool-cases (has_metric_key d k m)) [
    | inl e ↦ rw e (
        ap suc (
          count-keys k ms h.1
          ∙ ap one_if
              (subst (λ j. any (has_metric_key d j) ms ≡ false) (same_key d m.key k e) h.0)))
    | inr e ↦ rw e (count-keys k ms h.1)
  ]

  any-selected :
      (k : S) (p : MetricEntry S V → Bool) (ms : List (MetricEntry S V))
      → any (has_metric_key d k) ms ≡ false
      → any (has_metric_key d k) (select p ms) ≡ false
  any-selected k p [] h = refl
  any-selected k p (x ∷ xs) h = ground (arith, any-selected k p xs)

  select-AreKeyed :
      (p : MetricEntry S V → Bool) (ms : List (MetricEntry S V))
      → AreKeyed ms
      → AreKeyed (select p ms)
  select-AreKeyed p [] h = tt
  select-AreKeyed p (x ∷ xs) h =
      if-both AreKeyed (p x) (any-selected x.key p xs h.0, select-AreKeyed p xs h.1)
        (select-AreKeyed p xs h.1)

  any-select :
      (k : S) (targets ms : List (MetricEntry S V))
      → any (has_metric_key d k) (select (is_new d targets) ms)
        ≡ (any (has_metric_key d k) ms && not (any (has_metric_key d k) targets))
  any-select k targets [] = refl
  any-select k targets (x ∷ xs) = elim (Bool-cases (has_metric_key d k x)) [
    | inl e ↦ ground (
      arith,
      e,
      any-select k targets xs,
      ap (λ j. any (has_metric_key d j) targets) (same_key d x.key k e),
    )
    | inr e ↦ ground (arith, e, any-select k targets xs)
  ]

  count-ordered_keys :
      (k : S) (targets baselines : List (MetricEntry S V))
      → AreKeyed targets
      → AreKeyed baselines
      → count_if (is_key d k) (ordered_keys d targets baselines)
        ≡ one_if (any (has_metric_key d k) targets || any (has_metric_key d k) baselines)
  unfolding ordered_keys one_if
  count-ordered_keys k targets baselines h g =
      count_if-append (is_key d k) (keys targets) (keys (select (is_new d targets) baselines))
      ∙ ground (
        arith,
        count-keys k targets h,
        count-keys k (select (is_new d targets) baselines)
            (select-AreKeyed (is_new d targets) baselines g),
        any-select k targets baselines,
      )

module _ {S V : Type 0} (d : Discrete S) (is_empty : S → Bool) (assess : V → V → Change) where
  abbrev is_row_of : S → Row S V → Bool
  is_row_of k row = same d row.key k

  count-rows :
      (k : S) (targets baselines : List (MetricEntry S V)) (ks : List S)
      → count_if (is_row_of k) (map (row_of d is_empty assess targets baselines) ks)
        ≡ count_if (is_key d k) ks
  unfolding row_of
  count-rows k targets baselines [] = refl
  count-rows k targets baselines (j ∷ js) = ground (arith, count-rows k targets baselines js)

  -- Each key that one of the two runs has a metric under has exactly one row, and no other key has one.
  pub comparison_rows-accounted :
      (k : S) (targets baselines : List (MetricEntry S V))
      → count_if
          (λ (row : Row S V). same d row.key k)
          (comparison_rows d is_empty assess targets baselines)
        ≡ (if any (has_metric_key d k) targets || any (has_metric_key d k) baselines then 1 else 0)
  unfolding comparison_rows one_if
  comparison_rows-accounted k targets baselines =
      count-rows k (by_key d [] targets) (by_key d [] baselines)
        (ordered_keys d (by_key d [] targets) (by_key d [] baselines))
      ∙ (count-ordered_keys d k (by_key d [] targets) (by_key d [] baselines)
            (by_key-AreKeyed d [] targets tt) (by_key-AreKeyed d [] baselines tt)
          ∙ ap one_if (ground (arith, any-by_key d k [] targets, any-by_key d k [] baselines)))
