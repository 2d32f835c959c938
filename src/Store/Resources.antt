-- ===== src/Store/Resources.antt =====
-- What `deleteResource` of src/store.cpp changes.
pub mod Whole
use mathlib.Core.List.{Memᴰ}
use mathlib.Core.Bool.{true≢false}
use mathlib.Core.Path.{subst}
use zway_lib.Base.{
  ℕ, ◌≡◌, ◌≢◌, refl, sym, ◌∙◌, ap, Bool, true, false, List, [], ◌∷◌, ◌==◌, if◌then◌else◌, if_elim,
  length, arith,
}
use zway_lib.Base.Text.{codes}
use zway_lib.Ubj.Key.{Key, cmp, same_key}
use zway_lib.Ubj.Value.{Runtime, Object}
use zway_lib.Store.{
  Tables, IsLawful, without, vfs, resources, by_id, by_data, int_at, count, is_none, drop_data,
  remove_row, delete_found, delete_resource, delete_resources,
}
use zway_lib.Store.Blobs.{without-Memᴰ, Fitting, Fits-id, Fits-data}

dropped {ℓ} :
    {A : Type ℓ} (b n : ℕ) (x y : A)
    → b ≢ 0
    → n ≡ 0
    → (if is_none b then y else if is_none n then x else y) ≡ x
dropped b n x y h e = ground arith

same_number : (b : ℕ) (x : Bool) → (if b == b then false else x) ≡ false
same_number b x = ground arith

module _ (rt : Runtime) (S : Tables) (law : IsLawful S) where
  pub remove-select :
      (s : S.State) (t u : Key) (w v : Object)
      → S.Fits s t w
      → S.Fits s u v
      → same_key u t ≡ false
      → S.select (S.remove s t w).1 u v ≡ S.select s u v
  remove-select s t u w v f g h =
      law.select-remove s t u w v f g
      ∙ ap (λ b. if b then without (S.matches w) (S.select s u v) else S.select s u v) h

  drop_data-Fitting : (s : S.State) (blob : ℕ) → Fitting rt S s (drop_data rt S s blob).1
  drop_data-Fitting s blob u v g =
      let P : Bool × S.State → Type 0 = λ x. S.Fits x.1 u v in
      if_elim P (is_none blob) _ _ (λ e. g)
        (λ e.
          if_elim P (is_none (count rt S s vfs (by_data rt blob))) _ _
            (λ e'. law.fits_remove_blob s blob u v g) (λ e'. g))

  remove_row-Fitting : (id : ℕ) (r : Bool × S.State) → Fitting rt S r.1 (remove_row rt S id r).1
  remove_row-Fitting id (false, s) u v g = g
  remove_row-Fitting id (true, s) u v g =
      law.fits_remove s resources u (by_id rt (codes "id") id) v (Fits-id rt S law s resources id) g

  delete_found-Fitting :
      (s : S.State) (id : ℕ) (found : List Object) → Fitting rt S s (delete_found rt S s id found).1
  delete_found-Fitting s id [] u v g = g
  delete_found-Fitting s id (rec ∷ more) u v g =
      let blob = int_at rt (codes "data") rec in
      remove_row-Fitting id (drop_data rt S s blob) u v (drop_data-Fitting s blob u v g)

  -- Queries that fit go on to fit.
  pub delete_resources-Fitting :
      (s : S.State) (rows : List Object) → Fitting rt S s (delete_resources rt S s rows)
  unfolding delete_resources delete_resource
  delete_resources-Fitting s [] u v g = g
  delete_resources-Fitting s (r ∷ rows) u v g =
      let id = int_at rt (codes "id") r in
      delete_resources-Fitting (delete_resource rt S s id).1 rows u v
        (delete_found-Fitting s id (S.select s resources (by_id rt (codes "id") id)) u v g)

  drop_data-select :
      (s : S.State) (blob : ℕ) (u : Key) (v : Object)
      → S.Fits s u v
      → S.select (drop_data rt S s blob).1 u v ≡ S.select s u v
  drop_data-select s blob u v g =
      let P : Bool × S.State → Type 0 = λ x. S.select x.1 u v ≡ S.select s u v in
      if_elim P (is_none blob) _ _ (λ e. refl)
        (λ e.
          if_elim P (is_none (count rt S s vfs (by_data rt blob))) _ _
            (λ e'. law.select-remove_blob s blob u v g) (λ e'. refl))

  remove_row-select :
      (id : ℕ) (r : Bool × S.State) (u : Key) (v : Object)
      → S.Fits r.1 u v
      → same_key u resources ≡ false
      → S.select (remove_row rt S id r).1 u v ≡ S.select r.1 u v
  remove_row-select id (false, s) u v g h = refl
  remove_row-select id (true, s) u v g h =
      remove-select s resources u (by_id rt (codes "id") id) v (Fits-id rt S law s resources id) g h

  delete_found-select :
      (s : S.State) (id : ℕ) (found : List Object) (u : Key) (v : Object)
      → S.Fits s u v
      → same_key u resources ≡ false
      → S.select (delete_found rt S s id found).1 u v ≡ S.select s u v
  delete_found-select s id [] u v g h = refl
  delete_found-select s id (rec ∷ more) u v g h =
      let blob = int_at rt (codes "data") rec in
      remove_row-select id (drop_data rt S s blob) u v (drop_data-Fitting s blob u v g) h
      ∙ drop_data-select s blob u v g

  -- The rows of the other tables stay.
  pub delete_resources-select :
      (s : S.State) (rows : List Object) (u : Key) (v : Object)
      → S.Fits s u v
      → same_key u resources ≡ false
      → S.select (delete_resources rt S s rows) u v ≡ S.select s u v
  unfolding delete_resources delete_resource
  delete_resources-select s [] u v g h = refl
  delete_resources-select s (r ∷ rows) u v g h =
      let id = int_at rt (codes "id") r in
      let found = S.select s resources (by_id rt (codes "id") id) in
      delete_resources-select (delete_resource rt S s id).1 rows u v
        (delete_found-Fitting s id found u v g) h
      ∙ delete_found-select s id found u v g h

  pub row_state :
      (id : ℕ) (r : Bool × S.State)
      → r.0 ≡ true
      → (remove_row rt S id r).1 ≡ (S.remove r.1 resources (by_id rt (codes "id") id)).1
  row_state id (false, s) e = absurd (true≢false (sym e))
  row_state id (true, s) e = refl

  pub row_state_kept : (id : ℕ) (r : Bool × S.State) → r.0 ≡ false → (remove_row rt S id r).1 ≡ r.1
  row_state_kept id (false, s) e = refl
  row_state_kept id (true, s) e = absurd (true≢false e)

  pub drop_blob :
      (s : S.State) (blob : ℕ)
      → blob ≢ 0
      → S.select s vfs (by_data rt blob) ≡ []
      → drop_data rt S s blob ≡ S.remove_blob s blob
  drop_blob s blob n e =
      dropped blob (count rt S s vfs (by_data rt blob)) (S.remove_blob s blob) (true, s) n
        (ap length e)

  deleted_state :
      (s : S.State) (id : ℕ) (rec : Object) (more : List Object)
      → S.select s resources (by_id rt (codes "id") id) ≡ rec ∷ more
      → int_at rt (codes "data") rec ≢ 0
      → S.has_blob s (int_at rt (codes "data") rec) ≡ true
      → S.select s vfs (by_data rt (int_at rt (codes "data") rec)) ≡ []
      → (delete_resource rt S s id).1
        ≡ (S.remove
            (S.remove_blob s (int_at rt (codes "data") rec)).1
            resources
            (by_id rt (codes "id") id)).1
  unfolding delete_resource
  deleted_state s id rec more found n there no_file =
      let blob = int_at rt (codes "data") rec in
      ap (λ l. (delete_found rt S s id l).1) found
      ∙ ap (λ x. (remove_row rt S id x).1) (drop_blob s blob n no_file)
      ∙ row_state id (S.remove_blob s blob) (law.remove_blob_result s blob ∙ there)

  -- Behind `removeBlob` and the removal of rows of `resources`.
  pub blob_gone :
      (s : S.State) (b : ℕ) (w : Object)
      → S.Fits s resources w
      → S.has_blob (S.remove (S.remove_blob s b).1 resources w).1 b ≡ false
  blob_gone s b w f =
      law.has_blob-remove (S.remove_blob s b).1 resources w b
        (law.fits_remove_blob s b resources w f)
      ∙ law.has_blob-remove_blob s b b
      ∙ same_number b (S.has_blob s b)

  pub rows_left :
      (s : S.State) (b : ℕ) (w v : Object)
      → S.Fits s resources w
      → S.Fits s resources v
      → S.select (S.remove (S.remove_blob s b).1 resources w).1 resources v
        ≡ without (S.matches w) (S.select s resources v)
  unfolding cmp
  rows_left s b w v f g =
      law.select-remove (S.remove_blob s b).1 resources resources w v
        (law.fits_remove_blob s b resources w f) (law.fits_remove_blob s b resources v g)
      ∙ ap (without (S.matches w)) (law.select-remove_blob s b resources v g)

  -- If the blob of a resource is there, and no file has it, but another resource does, then
  -- deleteResource leaves that resource with a blob that is not there.
  pub delete_resource-dangles :
      (s : S.State) (id : ℕ) (rec other : Object) (more : List Object)
      → S.select s resources (by_id rt (codes "id") id) ≡ rec ∷ more
      → int_at rt (codes "data") rec ≢ 0
      → S.has_blob s (int_at rt (codes "data") rec) ≡ true
      → S.select s vfs (by_data rt (int_at rt (codes "data") rec)) ≡ []
      → Memᴰ other (S.select s resources (by_data rt (int_at rt (codes "data") rec)))
      → S.matches (by_id rt (codes "id") id) other ≡ false
      → (S.has_blob (delete_resource rt S s id).1 (int_at rt (codes "data") rec) ≡ false)
        × Memᴰ other (
            S.select
              (delete_resource rt S s id).1
              resources
              (by_data rt (int_at rt (codes "data") rec)))
  delete_resource-dangles s id rec other more found n there no_file m h =
      let b = int_at rt (codes "data") rec in
      let w = by_id rt (codes "id") id in
      let state = deleted_state s id rec more found n there no_file in
      (
        ap (λ t. S.has_blob t b) state ∙ blob_gone s b w (Fits-id rt S law s resources id),
        subst (Memᴰ other)
            (sym (
              ap (λ t. S.select t resources (by_data rt b)) state
              ∙ rows_left s b w (by_data rt b) (Fits-id rt S law s resources id)
                  (Fits-data rt S law s resources b)))
            (without-Memᴰ (S.matches w) other (S.select s resources (by_data rt b)) h m),
      )
