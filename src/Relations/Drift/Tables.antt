-- ===== src/Relations/Drift/Tables.antt =====
-- The drifts of all the tables after `repair_relation_drifts`
-- (backend/app/services/relation_consistency.py).
use open_slt.Prelude.{
  ℕ, ◌==◌, Bool, false, ◌||◌, ◌≡◌, ◌∙◌, refl, ap, List, [], ◌∷◌, ◌++◌, map, arith, All, any,
  modify_first, if◌then◌else◌, Bool-cases, inl, inr,
}
use open_slt.Domain.{Link}
use open_slt.Relations.{ordered_ids, same_ids}
use open_slt.Relations.Sync.{IsOrdered}
use open_slt.Relations.Drift.{
  Relation, RelationDrift, json_ids, drift_of, RelationTables, Source, relations, json,
  other_source, repair_values, repair, repair_all,
}
use open_slt.Relations.Drift.Repair.{AreKeys, new_ids_again}

-- One of the tables: what is read of a row, and how a row is synchronised.
pub record Table (R : Type 0) : Type 0 where
  pub relation : Relation
  pub row_id : R → ℕ
  pub legacy : R → List ℕ
  pub links : R → List Link
  pub sync : List ℕ → R → R
  pub same_row : (ids : List ℕ) (r : R) → row_id (sync ids r) ≡ row_id r
  pub settles :
      (i : ℕ) (ids : List ℕ) (r : R)
      → AreKeys ids
      → IsOrdered 0 (links r)
      → drift_of relation i (legacy (sync ids r)) (links (sync ids r)) ≡ []

-- A row whose links are loaded in their order and have distinct positive ids.
abbrev pub IsSound : List Link → Type 0
IsSound ls = IsOrdered 0 ls × AreKeys (ordered_ids ls)

module _ {R : Type 0} (row_id : R → ℕ) where
  -- No number is that of two rows.
  abbrev pub HaveIds : List R → Type 0
  HaveIds [] = Unit
  HaveIds (r ∷ rs) = (any (λ x. row_id x == row_id r) rs ≡ false) × HaveIds rs

  first_modified :
      (f : R → R) (r : R) (rs : List R)
      → modify_first (λ x. row_id x == row_id r) f (r ∷ rs) ≡ f r ∷ rs
  first_modified f r rs = ground arith

  unseen_rest :
      (seen : ℕ → Bool) (i : ℕ) (rs : List R)
      → All (λ r. seen (row_id r) ≡ false) rs
      → any (λ x. row_id x == i) rs ≡ false
      → All (λ r. (seen (row_id r) || i == row_id r) ≡ false) rs
  unseen_rest seen i [] h k = tt
  unseen_rest seen i (r ∷ rs) h k =
      (ground (arith, h.0), unseen_rest seen i rs h.1 (ground (arith, k)))

module _ {R : Type 0} (T : Table R) (source : Source) where
  unfoldable pub drifts : List R → List RelationDrift
  drifts [] = []
  drifts (r ∷ rs) = drift_of T.relation (T.row_id r) (T.legacy r) (T.links r) ++ drifts rs

  drift : R → RelationDrift
  drift r = record {
    relation = T.relation;
    owner_id = T.row_id r;
    legacy_ids = json_ids (T.legacy r);
    normalized_ids = ordered_ids (T.links r);
  }

  unfoldable pub repaired : R → R
  unfolding drift
  repaired r =
      if same_ids (json_ids (T.legacy r)) (ordered_ids (T.links r))
      then r
      else T.sync (repair_values source (drift r)) r

  same_row-repaired : (r : R) → T.row_id (repaired r) ≡ T.row_id r
  unfolding repaired
  same_row-repaired r =
      elim (Bool-cases (same_ids (json_ids (T.legacy r)) (ordered_ids (T.links r)))) [
        | inl b ↦ rw b refl
        | inr b ↦ rw b (T.same_row (repair_values source (drift r)) r)
      ]

  repair_values-AreKeys :
      (s : Source) (r : R) → IsSound (T.links r) → AreKeys (repair_values s (drift r))
  unfolding drift repair_values
  repair_values-AreKeys relations r h = h.1
  repair_values-AreKeys json r h = new_ids_again [] (T.legacy r)
  repair_values-AreKeys (other_source _) r h = new_ids_again [] (T.legacy r)

  drift-repaired :
      (r : R)
      → IsSound (T.links r)
      → drift_of T.relation (T.row_id (repaired r)) (T.legacy (repaired r)) (T.links (repaired r))
        ≡ []
  unfolding repaired
  drift-repaired r h =
      elim (Bool-cases (same_ids (json_ids (T.legacy r)) (ordered_ids (T.links r)))) [
        | inl b ↦ rw b (unfold drift_of in rw b refl)
        | inr b ↦ rw b (
            T.settles (T.row_id (T.sync (repair_values source (drift r)) r))
              (repair_values source (drift r)) r (repair_values-AreKeys source r h) h.0)
      ]

  pub drifts-repaired :
      (rs : List R) → All (λ r. IsSound (T.links r)) rs → drifts (map repaired rs) ≡ []
  unfolding drifts
  drifts-repaired [] h = refl
  drifts-repaired (r ∷ rs) h = rw (drift-repaired r h.0) (drifts-repaired rs h.1)

  one_more :
      (r : R) (i : ℕ) (ids : List ℕ) (xs : List R)
      → (T.row_id r == i) ≡ false
      → modify_first (λ x. T.row_id x == i) (T.sync ids) (repaired r ∷ xs)
        ≡ repaired r ∷ modify_first (λ x. T.row_id x == i) (T.sync ids) xs
  one_more r i ids xs e = rw (same_row-repaired r, e) refl

  first_repaired :
      (put : List R → RelationTables) (r : R) (rs : List R)
      → ((ids : List ℕ)
          → repair T.relation (T.row_id r) ids (put (r ∷ rs))
            ≡ put (modify_first (λ x. T.row_id x == T.row_id r) (T.sync ids) (r ∷ rs)))
      → (later ds : List RelationDrift)
      → repair_all source
          ((drift_of T.relation (T.row_id r) (T.legacy r) (T.links r) ++ later) ++ ds)
          (put (r ∷ rs))
        ≡ repair_all source (later ++ ds) (put (repaired r ∷ rs))
  unfolding repaired drift drift_of repair_all
  first_repaired put r rs puts later ds =
      elim (Bool-cases (same_ids (json_ids (T.legacy r)) (ordered_ids (T.links r)))) [
        | inl b ↦ rw b refl
        | inr b ↦ rw b (
            ap (repair_all source (later ++ ds)) (
              puts (repair_values source (drift r))
              ∙ ap put (first_modified T.row_id (T.sync (repair_values source (drift r))) r rs)))
      ]

  -- Repairing the drifts of a table, which stands among the others (`put`), repairs each of its rows.
  pub repair_all-drifts :
      (put : List R → RelationTables) (seen : ℕ → Bool)
      → ((i : ℕ) (ids : List ℕ) (xs : List R)
          → seen i ≡ false
          → repair T.relation i ids (put xs)
            ≡ put (modify_first (λ r. T.row_id r == i) (T.sync ids) xs))
      → (rs : List R) (ds : List RelationDrift) → All (λ r. seen (T.row_id r) ≡ false) rs
      → HaveIds T.row_id rs
      → repair_all source (drifts rs ++ ds) (put rs) ≡ repair_all source ds (put (map repaired rs))
  unfolding drifts
  repair_all-drifts put seen puts [] ds h k = refl
  repair_all-drifts put seen puts (r ∷ rs) ds h k =
      first_repaired put r rs (λ ids. puts (T.row_id r) ids (r ∷ rs) h.0) (drifts rs) ds
      ∙ repair_all-drifts (λ xs. put (repaired r ∷ xs)) (λ i. seen i || T.row_id r == i)
          (λ i ids xs e.
            puts i ids (repaired r ∷ xs) (ground (arith, e))
            ∙ ap put (one_more r i ids xs (ground (arith, e))))
          rs ds (unseen_rest T.row_id seen (T.row_id r) rs h.1 k.0) k.1
