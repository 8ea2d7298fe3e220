-- ===== src/Versions/Structure/Reports.antt =====
-- What a version whose structure has no errors (`validate_structure` of
-- backend/app/services/workflow_core.py) looks like.
use open_slt.Prelude.{
  ap, sym, ◌∙◌, ◌≤◌, Bool, true, false, not, ◌&&◌, ◌≡◌, refl, some, List, [], ◌∷◌, ◌++◌, ◌==◌, any,
  find, All, select, count_if, length, arith, if-both, if-cases, if◌then◌else◌, Bool-cases, inl,
  inr,
}
use open_slt.Domain.{report_generation}
use open_slt.Versions.{WorkflowNode}
use open_slt.Versions.Structure.{
  Issue, is_type, is_after, last_node, has_statistics_before, position_issues, second_reports,
  report_issues, has_no_nodes, validate_structure,
}

nothing_before : (xs ys : List Issue) → xs ++ ys ≡ [] → xs ≡ []
nothing_before [] ys h = refl
nothing_before (x ∷ xs) ys h = cc

nothing_after : (xs ys : List Issue) → xs ++ ys ≡ [] → ys ≡ []
nothing_after [] ys h = h
nothing_after (x ∷ xs) ys h = cc

module _ {C : Type 0} where
  -- No node is at a greater position.
  abbrev pub IsLast : WorkflowNode C → List (WorkflowNode C) → Type 0
  IsLast r = All (λ n. n.position ≤ r.position)

  last_node-first :
      (x : WorkflowNode C) (xs : List (WorkflowNode C)) → (x.position ≤ (last_node x xs).position)
  unfolding last_node
  last_node-first x [] = omega arith
  last_node-first x (y ∷ ys) =
      if-cases (λ (z : WorkflowNode C). x.position ≤ (last_node z ys).position) (is_after x y)
        (λ _. last_node-first x ys) (λ e. further e (last_node-first y ys))
    where
      further :
          is_after x y ≡ false
          → (y.position ≤ (last_node y ys).position)
          → (x.position ≤ (last_node y ys).position)
      further e h = ground (arith, e, h)

  last_node-IsLast : (x : WorkflowNode C) (xs : List (WorkflowNode C)) → IsLast (last_node x xs) xs
  unfolding last_node
  last_node-IsLast x [] = tt
  last_node-IsLast x (y ∷ ys) =
      if-cases (λ (z : WorkflowNode C). IsLast (last_node z ys) (y ∷ ys)) (is_after x y)
        (λ e. (further e (last_node-first x ys), last_node-IsLast x ys))
        (λ _. (last_node-first y ys, last_node-IsLast y ys))
    where
      further :
          is_after x y ≡ true
          → (x.position ≤ (last_node x ys).position)
          → (y.position ≤ (last_node x ys).position)
      further e h = ground (arith, e, h)

  -- it is one of the nodes
  last_node-any :
      (p : WorkflowNode C → Bool) (x : WorkflowNode C) (xs : List (WorkflowNode C))
      → any p (x ∷ xs) ≡ false
      → p (last_node x xs) ≡ false
  unfolding last_node
  last_node-any p x [] h = ground (arith, h)
  last_node-any p x (y ∷ ys) h = last_node-any p (if is_after x y then x else y) ys (
      if-both (λ (z : WorkflowNode C). any p (z ∷ ys) ≡ false) (is_after x y) (ground (arith, h))
        (ground (arith, h)))

  -- Another node has its id.
  abbrev pub is_doubled : WorkflowNode C → WorkflowNode C → Bool
  is_doubled r n = n.id == r.id && not (n.position == r.position)

  IsLast-same :
      (a b : WorkflowNode C) (nodes : List (WorkflowNode C))
      → a.position ≡ b.position
      → IsLast a nodes
      → IsLast b nodes
  IsLast-same a b [] e h = tt
  IsLast-same a b (x ∷ xs) e h = (ground (arith, e, h.0), IsLast-same a b xs e h.1)

  position_issues-IsLast :
      (r : WorkflowNode C) (nodes : List (WorkflowNode C))
      → position_issues r nodes ≡ []
      → any (is_doubled r) nodes ≡ false
      → IsLast r nodes
  unfolding position_issues
  position_issues-IsLast r [] h d = tt
  position_issues-IsLast r (x ∷ xs) h d =
      IsLast-same (last_node x xs) r (x ∷ xs) same_position
        (last_node-first x xs, last_node-IsLast x xs)
    where
      it : ((last_node x xs).id == r.id) ≡ true
      it = ground (arith, h)

      same_position : (last_node x xs).position ≡ r.position
      same_position = ground (arith, it, last_node-any (is_doubled r) x xs d)

  position_issues-statistics :
      (r : WorkflowNode C) (nodes : List (WorkflowNode C))
      → position_issues r nodes ≡ []
      → any (λ _. true) nodes ≡ true
      → has_statistics_before r nodes ≡ true
  unfolding position_issues
  position_issues-statistics r [] h e = cc
  position_issues-statistics r (x ∷ xs) h e = ground (arith, h)

  count-select :
      (p : WorkflowNode C → Bool) (nodes : List (WorkflowNode C))
      → count_if p nodes ≡ length (select p nodes)
  count-select p [] = refl
  count-select p (x ∷ xs) = ground (arith, count-select p xs)

  find-select :
      (p : WorkflowNode C → Bool) (r : WorkflowNode C) (nodes : List (WorkflowNode C))
      → find p nodes ≡ some r
      → (rs : List (WorkflowNode C)) × (select p nodes ≡ r ∷ rs)
  find-select p r [] h = cc
  find-select p r (x ∷ xs) h = elim (Bool-cases (p x)) [
    | inl e ↦ rw e (select p xs, ground (arith, e, h))
    | inr e ↦ rw e (find-select p r xs (ground (arith, e, h)))
  ]

  one_report :
      (r : WorkflowNode C) (rs nodes : List (WorkflowNode C))
      → report_issues (r ∷ rs) nodes ≡ []
      → length (r ∷ rs) ≡ 1
  unfolding report_issues second_reports
  one_report r [] nodes h = refl
  one_report r (s ∷ rs) nodes h = cc

  only_report :
      (r : WorkflowNode C) (rs nodes : List (WorkflowNode C))
      → report_issues (r ∷ rs) nodes ≡ []
      → position_issues r nodes ≡ []
  unfolding report_issues second_reports
  only_report r [] nodes h = h
  only_report r (s ∷ rs) nodes h = cc

  no_report_issues :
      (check : WorkflowNode C → List Issue) (nodes : List (WorkflowNode C))
      → validate_structure check nodes ≡ []
      → report_issues (select (is_type report_generation) nodes) nodes ≡ []
  unfolding validate_structure
  no_report_issues check nodes h = nothing_before _ _ (nothing_after (has_no_nodes nodes) _ h)

  some_node :
      (p : WorkflowNode C → Bool) (r : WorkflowNode C) (nodes : List (WorkflowNode C))
      → find p nodes ≡ some r
      → any (λ _. true) nodes ≡ true
  some_node p r [] h = cc
  some_node p r (x ∷ xs) h = ground arith

  -- A version in whose structure the check finds no error and that has a report node has only this one,
  -- no node of it is at a greater position, and a statistics node is at a smaller one. No other node may
  -- have the id of the report node.
  pub validate_structure-IsLast :
      (check : WorkflowNode C → List Issue) (nodes : List (WorkflowNode C)) (r : WorkflowNode C)
      → validate_structure check nodes ≡ []
      → find (is_type report_generation) nodes ≡ some r
      → any (is_doubled r) nodes ≡ false
      → (count_if (is_type report_generation) nodes ≡ 1)
        × IsLast r nodes
        × (has_statistics_before r nodes ≡ true)
  validate_structure-IsLast check nodes r h f d =
      let (rs, e) = find-select (is_type report_generation) r nodes f in
      let clean : report_issues (r ∷ rs) nodes ≡ [] =
        ap (λ reports. report_issues reports nodes) (sym e) ∙ no_report_issues check nodes h in
      let placed : position_issues r nodes ≡ [] = only_report r rs nodes clean in
      (
        count-select (is_type report_generation) nodes
            ∙ (ap length e ∙ one_report r rs nodes clean),
        position_issues-IsLast r nodes placed d,
        position_issues-statistics r nodes placed (some_node (is_type report_generation) r nodes f),
      )
