-- ===== src/Store/Nodes.antt =====
-- Files and directories of `Zway::Store` (src/store.cpp): rows of the table `vfs`, with their parent's
-- rowid, and for a file its blob.
pub mod Ends
pub mod Gone
use zway_lib.Base.{
  ℕ, zero, suc, Bool, true, false, not, ◌&&◌, Option, none, some, List, [], ◌∷◌, ◌==◌,
  if◌then◌else◌,
}
use zway_lib.Base.Text.{codes}
use zway_lib.Ubj.Value.{Runtime, Object, end, field}
use zway_lib.Ubj.Value.Convert.{of_ulong}
use zway_lib.Store.{
  Tables, directory, file, vfs, resources, by_rowid, by_data, int_at, count, is_none, removed,
  child_id,
}

module _ (rt : Runtime) where
  abbrev pub by_parent : ℕ → Object
  by_parent id = field (codes "parent") (of_ulong rt id) end

  module _ (S : Tables) where
    -- What a call that may not come back gives. `none` is a run that is out of fuel.
    abbrev pub Result : Type 0
    Result = Option (Bool × S.State)

    -- Goes on behind a call, unless it failed.
    abbrev pub and_then : Result → (S.State → Result) → Result
    and_then none k = none
    and_then (some (false, s)) k = some (false, s)
    and_then (some (true, s)) k = k s

    -- The loop over the children.
    unfoldable pub delete_nodes : (S.State → ℕ → Result) → S.State → List Object → Result
    delete_nodes delete s [] = some (true, s)
    delete_nodes delete s (node ∷ nodes) =
        and_then (delete s (child_id rt node)) (λ t. delete_nodes delete t nodes)

    -- A blob that neither a file nor a resource holds any more.
    abbrev pub release : S.State → ℕ → Bool × S.State
    release s blob =
        if not (is_none blob)
          && is_none (count rt S s vfs (by_data rt blob))
          && is_none (count rt S s resources (by_data rt blob))
        then S.remove_blob s blob
        else (true, s)

    abbrev pub behind_remove : ℕ → ℕ × S.State → Bool × S.State
    behind_remove blob (zero, s) = (false, s)
    behind_remove blob (suc n, s) = release s blob

    abbrev pub delete_children : (S.State → ℕ → Result) → S.State → ℕ → Bool → Result
    delete_children delete s id true = delete_nodes delete s (S.select s vfs (by_parent id))
    delete_children delete s id false = some (true, s)

    abbrev pub delete_typed : (S.State → ℕ → Result) → S.State → ℕ → Bool → ℕ → ℕ → Result
    delete_typed delete s id recursive type blob =
        if type == directory
        then and_then (delete_children delete s id recursive)
            (λ t. some (removed rt S (S.remove t vfs (by_rowid rt id))))
        else if type == file
        then some (behind_remove blob (S.remove s vfs (by_rowid rt id)))
        else some (false, s)

    abbrev pub delete_node : (S.State → ℕ → Result) → S.State → ℕ → Bool → List Object → Result
    delete_node delete s id recursive [] = some (false, s)
    delete_node delete s id recursive (node ∷ more) =
        delete_typed delete s id recursive (int_at rt (codes "type") node)
          (int_at rt (codes "data") node)

    -- `deleteVfsNode`. Fuel bounds the depth of the calls.
    unfoldable pub delete_vfs_node : ℕ → S.State → ℕ → Bool → Result
    unfolding delete_nodes
    delete_vfs_node zero s id recursive = none
    delete_vfs_node (suc fuel) s id recursive =
        delete_node (λ t k. delete_vfs_node fuel t k true) s id recursive
          (S.select s vfs (by_rowid rt id))
