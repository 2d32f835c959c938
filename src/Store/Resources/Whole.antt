-- ===== src/Store/Resources/Whole.antt =====
-- Which blobs `deleteResource` of src/store.cpp takes away, and who has them.
use mathlib.Core.List.{Memᴰ}
use mathlib.Core.Bool.{true≢false}
use mathlib.Core.Path.{subst}
use zway_lib.Base.{
  ℕ, ◌<◌, ◌≡◌, ◌≢◌, refl, sym, ◌∙◌, ap, Bool, true, false, List, [], ◌∷◌, if_elim, Bool-cases, inl,
  inr, ==_iff, arith,
}
use zway_lib.Base.Text.{codes}
use zway_lib.Ubj.Value.{Runtime, Object}
use zway_lib.Ubj.Value.Convert.{two32}
use zway_lib.Ubj.Object.{at_key}
use zway_lib.Ubj.Table.Rows.{to_uint_bound}
use zway_lib.Store.{
  Tables, IsLawful, without, vfs, resources, by_id, by_data, int_at, count, is_none, remove_row,
  delete_found, delete_resource,
}
use zway_lib.Store.Blobs.{
  IsWhole, Shrinks, Fits-id, Fits-data, Shrinks-remove_blob, Keeps-remove, Keeps-remove_blob,
  nil_of_length, Memᴰ-without, stays_empty, nil-Memᴰ, same_or_gone,
}
use zway_lib.Store.Resources.{rows_left, row_state, row_state_kept}

not_none : (b : ℕ) → is_none b ≡ false → b ≢ 0
not_none b e q = ground arith

module _ (rt : Runtime) (S : Tables) (law : IsLawful S) where
  -- The rows of `resources` that have this blob are those that `w` matches.
  abbrev pub IsUnshared : S.State → Object → ℕ → Type 0
  IsUnshared s w b =
      (r : Object) → Memᴰ r (S.select s resources (by_data rt b)) → S.matches w r ≡ true

  without-nil :
      (test : Object → Bool) (l : List Object)
      → ((r : Object) → Memᴰ r l → test r ≡ true)
      → without test l ≡ []
  without-nil test l h =
      nil-Memᴰ (without test l)
        (λ r m. let c = Memᴰ-without test r l m in true≢false (sym (h r c.0) ∙ c.1))

  -- The blob and its rows are taken away.
  both-IsWhole :
      (s : S.State) (w : Object) (b : ℕ)
      → S.Fits s resources w
      → S.select s vfs (by_data rt b) ≡ []
      → IsUnshared s w b
      → IsWhole rt S s
      → IsWhole rt S (S.remove (S.remove_blob s b).1 resources w).1
  both-IsWhole s w b fits no_file unshared h c l n e =
      let t = (S.remove (S.remove_blob s b).1 resources w).1 in
      let fits' = law.fits_remove_blob s b resources w fits in
      let shrinks : Shrinks rt S s t = λ u v r f m. Shrinks-remove_blob rt S law s b u v r f (
        (Keeps-remove rt S law (S.remove_blob s b).1 resources w fits').shrinks u v r
          (law.fits_remove_blob s b u v f) m) in
      let eq : (d : ℕ)
          → d ≡ b
          → (S.select t vfs (by_data rt d) ≡ []) × (S.select t resources (by_data rt d) ≡ []) =
        λ d q.
          let at_d = ap (by_data rt) q in
          (
            stays_empty rt S shrinks vfs (by_data rt d) (Fits-data rt S law s vfs d)
                (ap (S.select s vfs) at_d ∙ no_file),
            ap (S.select t resources) at_d
                ∙ rows_left rt S law s b w (by_data rt b) fits (Fits-data rt S law s resources b)
                ∙ without-nil (S.matches w) (S.select s resources (by_data rt b)) unshared,
          ) in
      elim (same_or_gone b c (S.has_blob s c) (
        sym (law.has_blob-remove_blob s b c)
        ∙ sym (law.has_blob-remove (S.remove_blob s b).1 resources w c fits')
        ∙ e)) [
          | inl same ↦ eq c same
          | inr gone ↦
              let old = h c l n gone in
              (
                stays_empty rt S shrinks vfs (by_data rt c) (Fits-data rt S law s vfs c) old.0,
                stays_empty rt S shrinks resources (by_data rt c) (Fits-data rt S law s resources c)
                    old.1,
              )
        ]

  -- What `removeBlob` gave, and the row behind it.
  row-IsWhole :
      (s : S.State) (id b : ℕ)
      → b < two32
      → b ≢ 0
      → S.select s vfs (by_data rt b) ≡ []
      → IsUnshared s (by_id rt (codes "id") id) b
      → IsWhole rt S s
      → IsWhole rt S (remove_row rt S id (S.remove_blob s b)).1
  row-IsWhole s id b l n no_file unshared h =
      let w = by_id rt (codes "id") id in
      elim (Bool-cases (S.has_blob s b)) [
        | inl there ↦
            subst (IsWhole rt S)
              (sym (row_state rt S law id (S.remove_blob s b) (law.remove_blob_result s b ∙ there)))
              (both-IsWhole s w b (Fits-id rt S law s resources id) no_file unshared h)
        | inr gone ↦
            let none_left = h b l n gone in
            subst (IsWhole rt S)
              (sym (
                row_state_kept rt S law id (S.remove_blob s b) (law.remove_blob_result s b ∙ gone)))
              ((Keeps-remove_blob rt S law s b none_left.0 none_left.1).whole h)
      ]

  found-IsWhole :
      (s : S.State) (id : ℕ) (found : List Object)
      → ((r : Object)
          → Memᴰ r found
          → IsUnshared s (by_id rt (codes "id") id) (int_at rt (codes "data") r))
      → IsWhole rt S s
      → IsWhole rt S (delete_found rt S s id found).1
  found-IsWhole s id [] unshared h = h
  found-IsWhole s id (rec ∷ more) unshared h =
      let b = int_at rt (codes "data") rec in
      let P : Bool × S.State → Type 0 = λ x. IsWhole rt S (remove_row rt S id x).1 in
      let kept : P (true, s) =
        (Keeps-remove rt S law s resources (by_id rt (codes "id") id)
            (Fits-id rt S law s resources id)).whole
          h in
      if_elim P (is_none b) _ _ (λ e. kept)
        (λ e.
          if_elim P (is_none (count rt S s vfs (by_data rt b))) _ _
            (λ e'.
              row-IsWhole s id b (to_uint_bound rt (at_key (codes "data") rec)) (not_none b e)
                (nil_of_length (S.select s vfs (by_data rt b))
                  ((==_iff (count rt S s vfs (by_data rt b)) 0).0 e'))
                (unshared rec (Memᴰ.head refl)) h)
            (λ e'. kept))

  -- If the blobs of the resource with this id are no other resource's, then deleteResource, whatever it
  -- returns, leaves every file and every resource with its blob, if they had theirs.
  pub delete_resource-IsWhole :
      (s : S.State) (id : ℕ)
      → ((r : Object)
          → Memᴰ r (S.select s resources (by_id rt (codes "id") id))
          → IsUnshared s (by_id rt (codes "id") id) (int_at rt (codes "data") r))
      → IsWhole rt S s
      → IsWhole rt S (delete_resource rt S s id).1
  unfolding delete_resource
  delete_resource-IsWhole s id unshared h =
      found-IsWhole s id (S.select s resources (by_id rt (codes "id") id)) unshared h
