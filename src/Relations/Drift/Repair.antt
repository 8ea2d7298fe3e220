-- ===== src/Relations/Drift/Repair.antt =====
-- The drift of a row that has been repaired (backend/app/services/relation_consistency.py).
use open_slt.Prelude.{
  ℕ, true, ◌≡◌, refl, ap, List, [], ◌∷◌, arith, mem, ltb, not, ◌&&◌, ℕ_discrete, Bool-cases, inl,
  inr, same,
}
use open_slt.Domain.{Link, NodeType-discrete, order_preparation}
use open_slt.Relations.{
  NodeOwner, ordered_ids, or_empty, same_ids, replace_links, sync_node_contract_files,
}
use open_slt.Relations.Sync.{IsOrdered, ordered_ids-replace_links}
use open_slt.Relations.Drift.{Relation, workflow_node_contract_files, new_ids, json_ids, drift_of}

pub new_ids_again : (seen xs : List ℕ) → new_ids seen (new_ids seen xs) ≡ new_ids seen xs
unfolding new_ids
new_ids_again seen [] = refl
new_ids_again seen (x ∷ xs) = elim (Bool-cases (ltb 0 x && not (mem ℕ_discrete x seen))) [
  | inl b ↦ rw (b, b) (ap (λ ys. x ∷ ys) (new_ids_again (x ∷ seen) xs))
  | inr b ↦ rw b (new_ids_again seen xs)
]

same_ids_self : (xs : List ℕ) → same_ids xs xs ≡ true
unfolding same_ids
same_ids_self [] = refl
same_ids_self (x ∷ xs) = ground (arith, same_ids_self xs)

-- Distinct positive numbers: what the keys of the database are.
abbrev pub AreKeys : List ℕ → Type 0
AreKeys ids = json_ids ids ≡ ids

no_drift :
    (relation : Relation) (i : ℕ) (ids : List ℕ) (links : List Link)
    → AreKeys ids
    → ordered_ids links ≡ ids
    → drift_of relation i ids links ≡ []
unfolding drift_of
no_drift relation i ids links k e = rw (k, e, same_ids_self ids) refl

pub no_drift_replaced :
    (relation : Relation) (i : ℕ) (ids : List ℕ) (links : List Link)
    → AreKeys ids
    → IsOrdered 0 links
    → drift_of relation i ids (replace_links links ids) ≡ []
no_drift_replaced relation i ids links k h =
    no_drift relation i ids (replace_links links ids) k (ordered_ids-replace_links links ids h)

pub node_no_drift :
    (i : ℕ) (ids : List ℕ) (n : NodeOwner)
    → AreKeys ids
    → IsOrdered 0 n.contract_file_links
    → let n' = sync_node_contract_files ids n in
      drift_of workflow_node_contract_files i (or_empty n'.contract_file_ids) n'.contract_file_links
      ≡ []
unfolding sync_node_contract_files
node_no_drift i ids n k h =
    elim (Bool-cases (same NodeType-discrete n.node_type order_preparation)) [
      | inl b ↦
          rw b (no_drift_replaced workflow_node_contract_files i ids n.contract_file_links k h)
      | inr b ↦ rw b (
          no_drift_replaced workflow_node_contract_files i [] n.contract_file_links
            (unfold new_ids in refl) h)
    ]
