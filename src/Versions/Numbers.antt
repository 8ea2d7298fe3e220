-- ===== src/Versions/Numbers.antt =====
-- The numbers of the versions of workflows (`create_draft`, `clone_published_to_draft` and
-- `create_next_version` of backend/app/services/workflow_core.py).
use open_slt.Prelude.{
  ℕ, ◌+◌, ◌≤◌, Bool, false, ◌&&◌, ◌≡◌, refl, Option, none, some, List, [], ◌∷◌, ◌++◌, map, any,
  if◌then◌else◌, if-both, ◌==◌, arith, Bool-cases, inl, inr, is_none,
}
use open_slt.Errors.{Result, ok, raised}
use open_slt.Relations.{resource_ids}
use open_slt.Versions.{
  Version, Workspace, is_of, is_numbered, largest, new_version, add_version, create_draft,
  update_version, copy_version_contents, load_version, clone_of, with_loaded, clone_of_published,
  existing_or_clone, clone_published_to_draft, retire_published, create_next_version, retire_other,
  publish, publish_checked, published_in, with_configs, WorkflowNode, has_version_id, next_of,
  set_version_status, published, disable,
}

module _ {C : Type 0} where
  -- `uq_scenario_workflow_version_generation`: the scenario, the number and the generation are the same.
  abbrev pub same_number : Version C → Version C → Bool
  same_number v w =
      w.scenario_id == v.scenario_id
      && w.version_no == v.version_no
      && w.generation_no == v.generation_no

  abbrev pub AreNumbered : List (Version C) → Type 0
  AreNumbered [] = Unit
  AreNumbered (v ∷ vs) = (any (same_number v) vs ≡ false) × AreNumbered vs

  any-append :
      (v w : Version C) (vs : List (Version C))
      → any (same_number v) vs ≡ false
      → same_number w v ≡ false
      → any (same_number v) (vs ++ w ∷ []) ≡ false
  any-append v w [] h k = ground arith
  any-append v w (x ∷ xs) h k = ground (arith, any-append v w xs)

  AreNumbered-append :
      (w : Version C) (vs : List (Version C))
      → AreNumbered vs
      → any (same_number w) vs ≡ false
      → AreNumbered (vs ++ w ∷ [])
  AreNumbered-append w [] h k = (refl, tt)
  AreNumbered-append w (v ∷ vs) h k =
      (any-append v w vs h.0 (ground (arith, k)), AreNumbered-append w vs h.1 (ground (arith, k)))

  -- writing other columns keeps the numbers
  abbrev pub KeepsNumber : (Version C → Version C) → Type 0
  KeepsNumber f =
      (v : Version C)
      → ((f v).scenario_id ≡ v.scenario_id)
        × ((f v).version_no ≡ v.version_no)
        × ((f v).generation_no ≡ v.generation_no)

  any-map :
      (f : Version C → Version C) (v : Version C) (vs : List (Version C))
      → KeepsNumber f
      → any (same_number (f v)) (map f vs) ≡ any (same_number v) vs
  any-map f v [] k = refl
  any-map f v (x ∷ xs) k = ground (arith, any-map f v xs k, k v, k x)

  AreNumbered-map :
      (f : Version C → Version C) (vs : List (Version C))
      → KeepsNumber f
      → AreNumbered vs
      → AreNumbered (map f vs)
  AreNumbered-map f [] k h = tt
  AreNumbered-map f (v ∷ vs) k h =
      (ground (arith, any-map f v vs k, h.0), AreNumbered-map f vs k h.1)

  any-above :
      (s : ℕ) (v : Version C) (vs : List (Version C))
      → (largest (is_of s) (λ v. v.version_no) vs + 1 ≤ v.version_no)
      → v.scenario_id ≡ s
      → any (same_number v) vs ≡ false
  unfolding largest
  any-above s v [] h e = refl
  any-above s v (x ∷ xs) h e = ground (arith, any-above s v xs)

  any-later :
      (s n : ℕ) (v : Version C) (vs : List (Version C))
      → (largest (is_numbered s n) (λ v. v.generation_no) vs + 1 ≤ v.generation_no)
      → v.scenario_id ≡ s
      → v.version_no ≡ n
      → any (same_number v) vs ≡ false
  unfolding largest
  any-later s n v [] h e d = refl
  any-later s n v (x ∷ xs) h e d = ground (arith, any-later s n v xs)

  pub update_version-AreNumbered :
      (i : ℕ) (f : Version C → Version C) (vs : List (Version C))
      → KeepsNumber f
      → AreNumbered vs
      → AreNumbered (update_version i f vs)
  update_version-AreNumbered i f vs k =
      AreNumbered-map (λ v. if has_version_id i v then f v else v) vs
        (λ v.
          if-both
            (λ (x : Version C).
              (x.scenario_id ≡ v.scenario_id)
              × (x.version_no ≡ v.version_no)
              × (x.generation_no ≡ v.generation_no))
            (has_version_id i v) (k v) (refl, refl, refl))

  -- The versions of a workspace.
  abbrev pub HasNumbers : Workspace C → Type 0
  HasNumbers w = AreNumbered w.versions

  pub create_draft-HasNumbers :
      (ids : List ℕ) (w : Workspace C) → HasNumbers w → HasNumbers (create_draft ids w).1
  unfolding create_draft add_version
  create_draft-HasNumbers ids w h =
      if-both HasNumbers (is_none w.scenario.published_workflow_version_id) numbered numbered
    where
      v : Version C
      v = new_version (largest (is_of w.scenario.id) (λ v. v.version_no) w.versions + 1) 1 ids w

      numbered : AreNumbered (w.versions ++ v ∷ [])
      numbered =
          AreNumbered-append v w.versions h
            (any-above w.scenario.id v w.versions (omega arith) refl)

  copy-HasNumbers :
      (uuid : ℕ → ℕ) (source target : Version C) (w : Workspace C)
      → HasNumbers w
      → HasNumbers (copy_version_contents uuid source target w)
  unfolding copy_version_contents
  copy-HasNumbers uuid source target w =
      update_version-AreNumbered target.id _ w.versions (λ v. (refl, refl, refl))

  clone_of-HasNumbers :
      (uuid : ℕ → ℕ) (source : Version C) (w : Workspace C)
      → HasNumbers w
      → HasNumbers (clone_of uuid source w).1
  unfolding clone_of add_version
  clone_of-HasNumbers uuid source w h =
      copy-HasNumbers uuid source v
        (record w {
          versions = w.versions ++ v ∷ [];
          next_id = w.next_id + 1;
          scenario = disable (record (w.scenario) { draft_workflow_version_id = some v.id });
        })
        (AreNumbered-append v w.versions h
          (any-later w.scenario.id source.version_no v w.versions (omega arith) refl refl))
    where
      v : Version C
      v =
          new_version source.version_no
            (largest (is_numbered w.scenario.id source.version_no) (λ v. v.generation_no) w.versions
              + 1)
            (resource_ids source.resources) w

  pub clone-HasNumbers :
      (uuid : ℕ → ℕ) (w : Workspace C)
      → HasNumbers w
      → HasNumbers (clone_published_to_draft uuid w).1
  unfolding clone_published_to_draft existing_or_clone
  clone-HasNumbers uuid w h = draft_or w.scenario.draft_workflow_version_id
    where
      draft_or : (o : Option ℕ) → HasNumbers (existing_or_clone uuid o w).1
      draft_or none = cloned w.scenario.published_workflow_version_id
        where
          loaded : (r : Result (Version C)) → HasNumbers (with_loaded (clone_of uuid) r w).1
          loaded (ok v) = unfold with_loaded in clone_of-HasNumbers uuid v w h
          loaded (raised e) = unfold with_loaded in h

          cloned : (o : Option ℕ) → HasNumbers (clone_of_published uuid o w).1
          cloned none =
              unfold clone_of_published in
              create_draft-HasNumbers (resource_ids w.scenario.resources) w h
          cloned (some i) = unfold clone_of_published in loaded (load_version i w)
      draft_or (some i) = h

  retire_published-AreNumbered :
      (o : Option ℕ) (vs : List (Version C)) → AreNumbered vs → AreNumbered (retire_published o vs)
  unfolding retire_published
  retire_published-AreNumbered none vs h = h
  retire_published-AreNumbered (some i) vs h =
      update_version-AreNumbered i _ vs
        (λ v.
          if-both
            (λ (x : Version C).
              (x.scenario_id ≡ v.scenario_id)
              × (x.version_no ≡ v.version_no)
              × (x.generation_no ≡ v.generation_no))
            _ (refl, refl, refl) (refl, refl, refl))
        h

  next_of-HasNumbers :
      (uuid : ℕ → ℕ) (source : Version C) (w : Workspace C)
      → HasNumbers w
      → HasNumbers (next_of uuid source w).1
  unfolding next_of
  next_of-HasNumbers uuid source w h =
      retire_published-AreNumbered copied.scenario.published_workflow_version_id copied.versions (
        copy-HasNumbers uuid source made.0 made.1
          (create_draft-HasNumbers (resource_ids source.resources) w h))
    where
      made : Version C × Workspace C
      made = create_draft (resource_ids source.resources) w

      copied : Workspace C
      copied = copy_version_contents uuid source made.0 made.1

  pub next-HasNumbers :
      (uuid : ℕ → ℕ) (source : Version C) (w : Workspace C)
      → HasNumbers w
      → HasNumbers (create_next_version uuid source w).1
  unfolding create_next_version
  next-HasNumbers uuid source w h =
      elim (Bool-cases (is_none w.scenario.draft_workflow_version_id)) [
        | inr d ↦ rw d h
        | inl d ↦ elim (Bool-cases (is_of w.scenario.id source)) [
          | inr s ↦ rw (d, s) h
          | inl s ↦ rw (d, s) (next_of-HasNumbers uuid source w h)
        ]
      ]

  retire_other-AreNumbered :
      (o : Option ℕ) (version : Version C) (vs : List (Version C))
      → AreNumbered vs
      → AreNumbered (retire_other o version vs)
  unfolding retire_other
  retire_other-AreNumbered none version vs h = h
  retire_other-AreNumbered (some i) version vs h =
      update_version-AreNumbered i _ vs
        (λ v.
          if-both
            (λ (x : Version C).
              (x.scenario_id ≡ v.scenario_id)
              × (x.version_no ≡ v.version_no)
              × (x.generation_no ≡ v.generation_no))
            _ (refl, refl, refl) (refl, refl, refl))
        h

  published-HasNumbers :
      (checked : Option (WorkflowNode C → C)) (version : Version C) (w : Workspace C)
      → HasNumbers w
      → HasNumbers (publish_checked checked version w).1
  unfolding publish_checked published_in with_configs
  published-HasNumbers none version w h = h
  published-HasNumbers (some configs) version w h =
      update_version-AreNumbered version.id
        (λ v. set_version_status published (with_configs configs v))
        (retire_other w.scenario.published_workflow_version_id version w.versions)
        (λ v. (refl, refl, refl))
        (retire_other-AreNumbered w.scenario.published_workflow_version_id version w.versions h)

  pub publish-HasNumbers :
      (check : Version C → Option (WorkflowNode C → C)) (version : Version C) (w : Workspace C)
      → HasNumbers w
      → HasNumbers (publish check version w).1
  unfolding publish
  publish-HasNumbers check version w h = published-HasNumbers (check version) version w h
