-- ===== src/Comparison/Recommending.antt =====
-- Which baseline `comparison_candidates` of backend/app/services/run_comparisons.py recommends.
use open_slt.Prelude.{
  any, ℕ, Bool, true, false, not, ◌&&◌, ◌||◌, ◌≡◌, refl, List, [], ◌∷◌, count_if, All, arith,
  if◌then◌else◌,
}
use open_slt.Errors.{ok, raised}
use open_slt.Comparison.{
  Change, ComparedRun, Candidate, candidate_of, compare_runs, candidates_from,
  comparison_candidates,
}

abbrev pub is_recommended : Candidate → Bool
is_recommended c = c.recommended

-- A recommended candidate is compatible and has passed.
abbrev pub IsDeserved : Candidate → Type 0
IsDeserved c = (c.recommended && not (c.compatible && c.passed)) ≡ false

-- A candidate that could be recommended.
abbrev pub is_eligible : Candidate → Bool
is_eligible c = c.compatible && c.passed

abbrev OneRecommended : Bool → List Candidate → Type 0
OneRecommended assigned cs =
    All IsDeserved cs
    × (count_if is_recommended cs ≡ (if assigned || not (any is_eligible cs) then 0 else 1))

-- one more candidate, before those of the rest of the loop
one_more :
    (assigned compatible passed : Bool) (cs : List Candidate)
    → OneRecommended (assigned || compatible && passed && not assigned) cs
    → (i n : ℕ)
    → OneRecommended assigned (
        record {
          run_id = i;
          passed = passed;
          compatible = compatible;
          matched_metric_count = n;
          recommended = compatible && passed && not assigned;
        }
        ∷ cs)
one_more assigned compatible passed cs h i n = ((ground arith, h.0), ground (arith, h.1))

module _ {S V : Type 0} (d : Discrete S) (is_empty : S → Bool) (assess : V → V → Change) where
  candidates_from-OneRecommended :
      (assigned : Bool) (target : ComparedRun S V) (runs : List (ComparedRun S V))
      → OneRecommended assigned (candidates_from d is_empty assess assigned target runs)
  unfolding candidates_from candidate_of
  candidates_from-OneRecommended true target [] = (tt, refl)
  candidates_from-OneRecommended false target [] = (tt, refl)
  candidates_from-OneRecommended assigned target (run ∷ runs) =
      elim (compare_runs d is_empty assess target run)
        as (λ r. OneRecommended assigned (elim r [
          | raised e ↦ candidates_from d is_empty assess assigned target runs
          | ok c ↦
              candidate_of d is_empty assess assigned run c
              ∷ candidates_from d is_empty assess
                  (assigned || (candidate_of d is_empty assess assigned run c).recommended) target
                  runs
        ])) [
          | raised e ↦ candidates_from-OneRecommended assigned target runs
          | ok c ↦
              one_more assigned c.compatible run.passed
                (candidates_from d is_empty assess
                  (assigned || c.compatible && run.passed && not assigned) target runs)
                (candidates_from-OneRecommended
                  (assigned || c.compatible && run.passed && not assigned) target runs)
                run.id c.matched
        ]

  -- The candidates are judged for themselves: each that is recommended is compatible and has passed,
  -- and exactly one is recommended if any of them is compatible and has passed, otherwise none.
  pub comparison_candidates-recommended :
      (target : ComparedRun S V) (runs : List (ComparedRun S V))
      → let cs = comparison_candidates d is_empty assess target runs in
        All IsDeserved cs
        × (count_if is_recommended cs ≡ (if not (any is_eligible cs) then 0 else 1))
  unfolding comparison_candidates
  comparison_candidates-recommended target runs = candidates_from-OneRecommended false target runs
