-- ===== src/Store/Nodes/Gone.antt =====
-- What `deleteVfsNode` of src/store.cpp takes away.
use mathlib.Core.List.{Memᴰ}
use mathlib.Core.List.Memᴰ
use mathlib.Core.Bool.{true≢false}
use mathlib.Core.Path.{subst}
use zway_lib.Base.{
  ℕ, zero, suc, ◌<◌, ◌≡◌, refl, sym, ◌∙◌, Bool, true, false, none, some, List, [], ◌∷◌, ◌==◌,
  if_elim, inl, inr,
}
use zway_lib.Base.Text.{codes}
use zway_lib.Ubj.Key.{cmp}
use zway_lib.Ubj.Value.{Runtime, Object}
use zway_lib.Store.{Tables, IsLawful, vfs, by_rowid, int_at, directory, file, removed, child_id}
use zway_lib.Store.Blobs.{
  Keeps, Keeps-refl, Keeps-trans, Keeps-remove, IsNumbered, stays_empty, nil-Memᴰ, not-Memᴰ-nil,
}
use zway_lib.Store.Nodes.{
  by_parent, Result, and_then, delete_nodes, release, behind_remove, delete_typed, delete_node,
  delete_vfs_node,
}
use zway_lib.Store.Nodes.Ends.{
  Gives, release-Keeps, delete_vfs_node-Ends, IsTree, plain_parent, child-Fits,
}

module _ (rt : Runtime) (S : Tables) where
  -- No row has this rowid.
  abbrev pub IsGone : ℕ → S.State → Type 0
  IsGone id s = S.select s vfs (by_rowid rt id) ≡ []

  abbrev pub is_directory : List Object → Bool
  is_directory [] = false
  is_directory (r ∷ rs) = int_at rt (codes "type") r == directory

  -- If the call says so, `P` holds behind it.
  abbrev After : S.State → (S.State → Type 0) → Result rt S → Type 0
  After s P none = Unit
  After s P (some x) = Keeps rt S s x.1 × (x.0 ≡ true → P x.1)

  behind-After :
      (P Q : S.State → Type 0) {s t : S.State} (o : Result rt S)
      → Keeps rt S s t
      → ((u : S.State) → Keeps rt S t u → P u → Q u)
      → After t P o
      → After s Q o
  behind-After P Q none h f g = tt
  behind-After P Q (some x) h f g = (Keeps-trans rt S h g.0, λ e. f x.1 g.0 (g.1 e))

  and_then-After :
      (P Q : S.State → Type 0) (s : S.State) (o : Result rt S) (k : S.State → Result rt S)
      → After s P o
      → ((t : S.State) → Keeps rt S s t → P t → After s Q (k t))
      → After s Q (and_then rt S o k)
  and_then-After P Q s none k g h = tt
  and_then-After P Q s (some (false, t)) k g h = (g.0, λ e. absurd (true≢false (sym e)))
  and_then-After P Q s (some (true, t)) k g h = h t g.0 (g.1 refl)

  AllGone : List Object → S.State → Type 0
  AllGone nodes s = (r : Object) → Memᴰ r nodes → IsGone (child_id rt r) s

  delete_nodes-AllGone :
      (delete : S.State → ℕ → Result rt S) (s : S.State) (nodes : List Object)
      → ((r : Object) → Memᴰ r nodes → S.Fits s vfs (by_rowid rt (child_id rt r)))
      → ((t : S.State) (r : Object)
          → Keeps rt S s t
          → Memᴰ r nodes
          → After t (IsGone (child_id rt r)) (delete t (child_id rt r)))
      → After s (AllGone nodes) (delete_nodes rt S delete s nodes)
  unfolding delete_nodes AllGone
  delete_nodes-AllGone delete s [] f h = (Keeps-refl rt S s, λ e r m. absurd (Memᴰ.not-nil m))
  delete_nodes-AllGone delete s (node ∷ nodes) f h =
      let id = child_id rt node in
      let first = f node (Memᴰ.head refl) in
      and_then-After (IsGone id) (AllGone (node ∷ nodes)) s (delete s id)
        (λ t. delete_nodes rt S delete t nodes) (h s node (Keeps-refl rt S s) (Memᴰ.head refl))
        (λ t k gone.
          behind-After (AllGone nodes) (AllGone (node ∷ nodes)) (delete_nodes rt S delete t nodes) k
            (λ u k' all r m. elim (Memᴰ.cases_cons m) [
              | inl same ↦
                  subst (λ n. IsGone (child_id rt n) u) (sym same)
                    (stays_empty rt S k'.shrinks vfs (by_rowid rt id)
                      (k.fitting vfs (by_rowid rt id) first) gone)
              | inr below ↦ all r below
            ])
            (delete_nodes-AllGone delete t nodes
              (λ r m. k.fitting vfs (by_rowid rt (child_id rt r)) (f r (Memᴰ.tail m)))
              (λ u r k' m. h u r (Keeps-trans rt S k k') (Memᴰ.tail m))))

  module _ (law : IsLawful S) where
    remove-IsGone :
        (s : S.State) (id : ℕ)
        → S.Fits s vfs (by_rowid rt id)
        → IsGone id (S.remove s vfs (by_rowid rt id)).1
    unfolding cmp
    remove-IsGone s id f =
        law.select-remove s vfs vfs (by_rowid rt id) (by_rowid rt id) f f
        ∙ law.without-select s vfs (by_rowid rt id) f

    -- The node's row has gone, and if it was a directory those of its children.
    abbrev pub IsCleared : S.State → ℕ → S.State → Type 0
    IsCleared s id t =
        IsGone id t
        × (is_directory (S.select s vfs (by_rowid rt id)) ≡ true
            → S.select t vfs (by_parent rt id) ≡ [])

    AllGone-nil :
        (s t : S.State) (id : ℕ)
        → IsNumbered rt S s
        → Keeps rt S s t
        → AllGone (S.select s vfs (by_parent rt id)) t
        → S.select t vfs (by_parent rt id) ≡ []
    unfolding AllGone
    AllGone-nil s t id n k all = nil-Memᴰ (S.select t vfs (by_parent rt id)) (λ r m.
        let f = law.fits_plain s vfs (by_parent rt id) (plain_parent rt S law id) in
        not-Memᴰ-nil (all r (k.shrinks vfs (by_parent rt id) r f m))
          (k.numbered n (by_parent rt id) r (plain_parent rt S law id) m).1)

    removed-After :
        (P : S.State → Type 0) (s : S.State) (id : ℕ)
        → S.Fits s vfs (by_rowid rt id)
        → P (S.remove s vfs (by_rowid rt id)).1
        → After s P (some (removed rt S (S.remove s vfs (by_rowid rt id))))
    removed-After P s id f h = (Keeps-remove rt S law s vfs (by_rowid rt id) f, λ e. h)

    behind_remove-After :
        (P : S.State → Type 0) (s : S.State) (blob : ℕ) (r : ℕ × S.State)
        → ((t : S.State) → Keeps rt S r.1 t → P t)
        → Keeps rt S s r.1
        → After s P (some (behind_remove rt S blob r))
    behind_remove-After P s blob (zero, t) h k = (k, λ e. absurd (true≢false (sym e)))
    behind_remove-After P s blob (suc n, t) h k =
        let k' = release-Keeps rt S law t blob in
        (Keeps-trans rt S k k', λ e. h (release rt S t blob).1 k')

    -- Type `directory` of the first row, or not.
    delete_typed-After :
        (delete : S.State → ℕ → Result rt S) (s : S.State) (id type blob : ℕ) (D : Type 0)
        → (D → (type == directory) ≡ true)
        → After s
            (AllGone (S.select s vfs (by_parent rt id)))
            (delete_nodes rt S delete s (S.select s vfs (by_parent rt id)))
        → IsNumbered rt S s
        → S.Fits s vfs (by_rowid rt id)
        → After s
            (λ t. IsGone id t × (D → S.select t vfs (by_parent rt id) ≡ []))
            (delete_typed rt S delete s id true type blob)
    delete_typed-After delete s id type blob D d g n f =
        let P : S.State → Type 0 = λ t. IsGone id t × (D → S.select t vfs (by_parent rt id) ≡ []) in
        let w = by_rowid rt id in
        if_elim (After s P) (type == directory) _ _
          (λ e.
            and_then-After (AllGone (S.select s vfs (by_parent rt id))) P s
              (delete_nodes rt S delete s (S.select s vfs (by_parent rt id))) _ g
              (λ t k all. (
                Keeps-trans rt S k (Keeps-remove rt S law t vfs w (k.fitting vfs w f)),
                λ e'. (
                  remove-IsGone t id (k.fitting vfs w f),
                  λ y.
                      stays_empty rt S (Keeps-remove rt S law t vfs w (k.fitting vfs w f)).shrinks
                        vfs (by_parent rt id)
                        (law.fits_plain t vfs (by_parent rt id) (plain_parent rt S law id))
                        (AllGone-nil s t id n k all),
                ),
              )))
          (λ e.
            if_elim (After s P) (type == file) _ _
              (λ e'.
                behind_remove-After P s blob (S.remove s vfs w)
                  (λ t k. (
                    stays_empty rt S k.shrinks vfs w (law.fits_remove s vfs vfs w w f f)
                        (remove-IsGone s id f),
                    λ y. absurd (true≢false (sym (d y) ∙ e)),
                  ))
                  (Keeps-remove rt S law s vfs w f))
              (λ e'. (Keeps-refl rt S s, λ f. absurd (true≢false (sym f)))))

    delete_node-After :
        (delete : S.State → ℕ → Result rt S) (s : S.State) (id : ℕ) (found : List Object)
        → After s
            (AllGone (S.select s vfs (by_parent rt id)))
            (delete_nodes rt S delete s (S.select s vfs (by_parent rt id)))
        → IsNumbered rt S s
        → S.Fits s vfs (by_rowid rt id)
        → After s
            (λ t. IsGone id t × (is_directory found ≡ true → S.select t vfs (by_parent rt id) ≡ []))
            (delete_node rt S delete s id true found)
    delete_node-After delete s id [] g n f = (Keeps-refl rt S s, λ e. absurd (true≢false (sym e)))
    delete_node-After delete s id (r ∷ more) g n f =
        delete_typed-After delete s id (int_at rt (codes "type") r) (int_at rt (codes "data") r)
          ((int_at rt (codes "type") r == directory) ≡ true) (λ e. e) g n f

    delete_vfs_node-After :
        (fuel : ℕ) (s : S.State) (id : ℕ)
        → IsNumbered rt S s
        → S.Fits s vfs (by_rowid rt id)
        → After s (IsCleared s id) (delete_vfs_node rt S fuel s id true)
    unfolding delete_vfs_node
    delete_vfs_node-After zero s id n f = tt
    delete_vfs_node-After (suc fuel) s id n f =
        let delete : S.State → ℕ → Result rt S = λ t k. delete_vfs_node rt S fuel t k true in
        delete_node-After delete s id (S.select s vfs (by_rowid rt id))
          (delete_nodes-AllGone delete s (S.select s vfs (by_parent rt id))
            (λ r m. child-Fits rt S law id r n (Keeps-refl rt S s) m)
            (λ t r k m.
              let i = child_id rt r in
              behind-After (IsCleared t i) (IsGone i) (delete t i) (Keeps-refl rt S t)
                (λ u k' c. c.0)
                (delete_vfs_node-After fuel t i (k.numbered n) (child-Fits rt S law id r n k m))))
          n f

    -- The call comes back, and if it says so the node and its children have gone.
    abbrev pub Deletes : S.State → ℕ → Result rt S → Type 0
    Deletes s id none = ⊥
    Deletes s id (some x) = Keeps rt S s x.1 × (x.0 ≡ true → IsCleared s id x.1)

    of_After :
        (s : S.State) (id : ℕ) (o : Result rt S)
        → Gives rt S ⊥ s o
        → After s (IsCleared s id) o
        → Deletes s id o
    of_After s id none h g = h
    of_After s id (some x) h g = g

    -- If every node is higher than its children, there is fuel for the height of the node, each row
    -- is found by the rowid that toInt reads from it, and no other table has a row with the rowid of one
    -- of `vfs` or with the one that is given, then deleteVfsNode comes back: of the queries that fit, none
    -- has a new row, a blob that a file or a resource has is still there if that was so before, and if
    -- it returns true neither the node's row is there, nor, if it was a directory, a row with it as
    -- the parent.
    pub delete_vfs_node-Deletes :
        (height : ℕ → ℕ) (fuel : ℕ) (s : S.State) (id : ℕ)
        → IsTree rt S law height s
        → height id < fuel
        → IsNumbered rt S s
        → S.Fits s vfs (by_rowid rt id)
        → Deletes s id (delete_vfs_node rt S fuel s id true)
    delete_vfs_node-Deletes height fuel s id tree h n f =
        of_After s id (delete_vfs_node rt S fuel s id true)
          (delete_vfs_node-Ends rt S law height fuel s id true tree h n f)
          (delete_vfs_node-After fuel s id n f)
