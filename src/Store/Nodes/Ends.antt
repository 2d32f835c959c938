-- ===== src/Store/Nodes/Ends.antt =====
-- How `deleteVfsNode` of src/store.cpp ends, and what it leaves.
use mathlib.Core.List.{Memᴰ}
use zway_lib.Base.{
  ℕ, zero, suc, ◌<◌, ◌≡◌, refl, Bool, true, false, not, ◌&&◌, none, some, List, [], ◌∷◌, ◌==◌,
  arith, if_elim,
}
use zway_lib.Base.Text.{codes}
use zway_lib.Ubj.Key.{cmp}
use zway_lib.Ubj.Object.{find, has_field}
use zway_lib.Ubj.Value.{Runtime, Object}
use zway_lib.Store.{
  Tables, IsLawful, vfs, resources, by_rowid, by_data, int_at, count, is_none, directory, file,
  child_id,
}
use zway_lib.Store.Blobs.{
  nil_of_length, Keeps, Keeps-refl, Keeps-trans, Keeps-remove, Keeps-remove_blob, IsNumbered,
}
use zway_lib.Store.Nodes.{
  by_parent, Result, and_then, delete_nodes, release, behind_remove, delete_children, delete_typed,
  delete_node, delete_vfs_node,
}

both_zero : (b : Bool) (m n : ℕ) → ((b && (m == 0)) && (n == 0)) ≡ true → (m ≡ 0) × (n ≡ 0)
both_zero b m n e = ground arith

module _ (rt : Runtime) (S : Tables) where
  -- A call comes back with what it keeps, or without fuel `N` holds.
  abbrev pub Gives : Type 0 → S.State → Result rt S → Type 0
  Gives N s none = N
  Gives N s (some x) = Keeps rt S s x.1

  behind-Gives :
      (N : Type 0) {s t : S.State} (o : Result rt S) → Keeps rt S s t → Gives N t o → Gives N s o
  behind-Gives N none h g = g
  behind-Gives N (some x) h g = Keeps-trans rt S h g

  and_then-Gives :
      (N : Type 0) (s : S.State) (o : Result rt S) (k : S.State → Result rt S)
      → Gives N s o
      → ((t : S.State) → Keeps rt S s t → Gives N t (k t))
      → Gives N s (and_then rt S o k)
  and_then-Gives N s none k g h = g
  and_then-Gives N s (some (false, t)) k g h = g
  and_then-Gives N s (some (true, t)) k g h = behind-Gives N (k t) g (h t g)

  delete_nodes-Gives :
      (N : Type 0) (delete : S.State → ℕ → Result rt S) (s : S.State) (nodes : List Object)
      → ((t : S.State) (node : Object)
          → Keeps rt S s t
          → Memᴰ node nodes
          → Gives N t (delete t (child_id rt node)))
      → Gives N s (delete_nodes rt S delete s nodes)
  unfolding delete_nodes
  delete_nodes-Gives N delete s [] h = Keeps-refl rt S s
  delete_nodes-Gives N delete s (node ∷ nodes) h =
      and_then-Gives N s (delete s (child_id rt node)) (λ t. delete_nodes rt S delete t nodes)
        (h s node (Keeps-refl rt S s) (Memᴰ.head refl))
        (λ t k.
          delete_nodes-Gives N delete t nodes
            (λ u n k' m. h u n (Keeps-trans rt S k k') (Memᴰ.tail m)))

  module _ (law : IsLawful S) where
    pub plain_parent : (id : ℕ) → has_field (codes "rowid") (by_parent rt id) ≡ false
    unfolding has_field find cmp
    plain_parent id = refl

    -- A child of a node is found by its rowid as before.
    pub child-Fits :
        {s t : S.State} (id : ℕ) (node : Object)
        → IsNumbered rt S s
        → Keeps rt S s t
        → Memᴰ node (S.select s vfs (by_parent rt id))
        → S.Fits t vfs (by_rowid rt (child_id rt node))
    child-Fits id node n k m =
        k.fitting vfs (by_rowid rt (child_id rt node))
          (n (by_parent rt id) node (plain_parent id) m).0

    pub release-Keeps : (s : S.State) (blob : ℕ) → Keeps rt S s (release rt S s blob).1
    release-Keeps s blob =
        let files = count rt S s vfs (by_data rt blob) in
        let held = count rt S s resources (by_data rt blob) in
        if_elim (λ x. Keeps rt S s x.1) ((not (is_none blob) && is_none files) && is_none held)
          (S.remove_blob s blob) (true, s)
          (λ e.
            let h = both_zero (not (is_none blob)) files held e in
            Keeps-remove_blob rt S law s blob (nil_of_length (S.select s vfs (by_data rt blob)) h.0)
              (nil_of_length (S.select s resources (by_data rt blob)) h.1))
          (λ e. Keeps-refl rt S s)

    behind_remove-Keeps :
        (s : S.State) (blob : ℕ) (r : ℕ × S.State)
        → Keeps rt S s r.1
        → Keeps rt S s (behind_remove rt S blob r).1
    behind_remove-Keeps s blob (zero, t) h = h
    behind_remove-Keeps s blob (suc n, t) h = Keeps-trans rt S h (release-Keeps t blob)

    delete_children-Gives :
        (N : Type 0) (delete : S.State → ℕ → Result rt S) (s : S.State) (id : ℕ) (recursive : Bool)
        → ((t : S.State) (node : Object)
            → Keeps rt S s t
            → Memᴰ node (S.select s vfs (by_parent rt id))
            → Gives N t (delete t (child_id rt node)))
        → Gives N s (delete_children rt S delete s id recursive)
    delete_children-Gives N delete s id true h =
        delete_nodes-Gives N delete s (S.select s vfs (by_parent rt id)) h
    delete_children-Gives N delete s id false h = Keeps-refl rt S s

    delete_typed-Gives :
        (N : Type 0) (delete : S.State → ℕ → Result rt S) (s : S.State) (id : ℕ) (recursive : Bool)
        (type blob : ℕ)
        → S.Fits s vfs (by_rowid rt id)
        → Gives N s (delete_children rt S delete s id recursive)
        → Gives N s (delete_typed rt S delete s id recursive type blob)
    delete_typed-Gives N delete s id recursive type blob f h =
        let w = by_rowid rt id in
        let row_gone : (t : S.State) → Keeps rt S s t → Keeps rt S t (S.remove t vfs w).1 =
          λ t k. Keeps-remove rt S law t vfs w (k.fitting vfs w f) in
        if_elim (Gives N s) (type == directory) _ _
          (λ e. and_then-Gives N s (delete_children rt S delete s id recursive) _ h row_gone)
          (λ e.
            if_elim (Gives N s) (type == file) _ _
              (λ e'.
                behind_remove-Keeps s blob (S.remove s vfs (by_rowid rt id))
                  (row_gone s (Keeps-refl rt S s)))
              (λ e'. Keeps-refl rt S s))

    delete_node-Gives :
        (N : Type 0) (delete : S.State → ℕ → Result rt S) (s : S.State) (id : ℕ) (recursive : Bool)
        (found : List Object)
        → S.Fits s vfs (by_rowid rt id)
        → Gives N s (delete_children rt S delete s id recursive)
        → Gives N s (delete_node rt S delete s id recursive found)
    delete_node-Gives N delete s id recursive [] f h = Keeps-refl rt S s
    delete_node-Gives N delete s id recursive (node ∷ more) f h =
        delete_typed-Gives N delete s id recursive (int_at rt (codes "type") node)
          (int_at rt (codes "data") node) f h

    -- Whatever the fuel, what comes back is kept.
    pub delete_vfs_node-Keeps :
        (fuel : ℕ) (s : S.State) (id : ℕ) (recursive : Bool)
        → IsNumbered rt S s
        → S.Fits s vfs (by_rowid rt id)
        → Gives Unit s (delete_vfs_node rt S fuel s id recursive)
    unfolding delete_vfs_node
    delete_vfs_node-Keeps zero s id recursive n f = tt
    delete_vfs_node-Keeps (suc fuel) s id recursive n f =
        let delete : S.State → ℕ → Result rt S = λ t k. delete_vfs_node rt S fuel t k true in
        delete_node-Gives Unit delete s id recursive (S.select s vfs (by_rowid rt id)) f (
          delete_children-Gives Unit delete s id recursive (λ t node k m.
            delete_vfs_node-Keeps fuel t (child_id rt node) true (k.numbered n)
              (child-Fits id node n k m)))

    module _ (height : ℕ → ℕ) where
      -- A node is higher than its children.
      abbrev pub IsTree : S.State → Type 0
      IsTree s =
          (id : ℕ) (r : Object)
          → Memᴰ r (S.select s vfs (by_parent rt id))
          → height (child_id rt r) < height id

      pub delete_vfs_node-Ends :
          (fuel : ℕ) (s : S.State) (id : ℕ) (recursive : Bool)
          → IsTree s
          → height id < fuel
          → IsNumbered rt S s
          → S.Fits s vfs (by_rowid rt id)
          → Gives ⊥ s (delete_vfs_node rt S fuel s id recursive)
      unfolding delete_vfs_node
      delete_vfs_node-Ends zero s id recursive tree h n f = absurd (omega arith)
      delete_vfs_node-Ends (suc fuel) s id recursive tree h n f =
          let delete : S.State → ℕ → Result rt S = λ t k. delete_vfs_node rt S fuel t k true in
          delete_node-Gives ⊥ delete s id recursive (S.select s vfs (by_rowid rt id)) f (
            delete_children-Gives ⊥ delete s id recursive (λ t node k m.
              delete_vfs_node-Ends fuel t (child_id rt node) true
                (λ i r m'. tree i r (
                  k.shrinks vfs (by_parent rt i) r
                    (law.fits_plain s vfs (by_parent rt i) (plain_parent i)) m'))
                (let lower = tree id node m in omega arith) (k.numbered n)
                (child-Fits id node n k m)))
