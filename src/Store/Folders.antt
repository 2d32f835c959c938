-- ===== src/Store/Folders.antt =====
-- New nodes of the file system, and the directory of a contact: `createVfsNode` and `ioDir` of
-- src/store.cpp.
use zway_lib.Base.{
  ℕ, zero, suc, ◌≡◌, ◌≢◌, List, [], ◌∷◌, ◌++◌, true, false, not, ◌&&◌, ltb, ◌==◌, if◌then◌else◌,
}
use zway_lib.Base.Int.{pos}
use zway_lib.Base.Text.{codes}
use mathlib.Core.List.{Memᴰ}
use zway_lib.Ubj.Key.{Key, same_key}
use zway_lib.Ubj.Value.{Runtime, Value, Object, end, field}
use zway_lib.Ubj.Value.Convert.{of_int, of_uint, of_ulong, of_string, to_ulong, to_str}
use zway_lib.Ubj.Object.{at_key, has_field, merge}
use zway_lib.Store.{Tables, vfs, contacts, directory, by_id, count}

module _ (rt : Runtime) where
  abbrev pub first_long : Key → List Object → ℕ
  first_long k [] = 0
  first_long k (r ∷ rs) = to_ulong rt (at_key k r)

  -- The fields that `createVfsNode` sets. `now` is what `time` returns.
  abbrev pub node_fields : ℕ → ℕ → List ℕ → ℕ → Object
  node_fields now type name parent = field (codes "name") (of_string rt name) (
      field (codes "parent") (of_ulong rt parent) (
        field (codes "status") (of_int rt (pos 0))
          (field (codes "time") (of_ulong rt now) (field (codes "type") (of_uint rt type) end))))

  -- The query of `ioDir` has the constant 0, an int, where its parent is the root.
  abbrev pub parent_value : ℕ → Value
  parent_value zero = of_int rt (pos 0)
  parent_value (suc n) = of_ulong rt (suc n)

  abbrev pub dir_query : ℕ → List ℕ → Object
  dir_query parent name = field (codes "name") (of_string rt name) (
      field (codes "parent") (parent_value parent)
        (field (codes "type") (of_uint rt directory) end))

  module _ (S : Tables) (now : ℕ) where
    -- `queryInt`
    abbrev pub query_int : S.State → Key → Key → Object → ℕ
    query_int s t k w = first_long k (S.select s t w)

    unfoldable pub create_vfs_node : S.State → ℕ → List ℕ → ℕ → Object → ℕ × S.State
    create_vfs_node s type name parent extra =
        let node = merge extra (node_fields now type name parent) in
        if ltb 0 (count rt S s vfs node) then (0, s) else S.insert s vfs node

    abbrev pub dir_id : S.State → ℕ → List ℕ → ℕ
    dir_id s parent name = query_int s vfs (codes "rowid") (dir_query parent name)

    abbrev pub dir_or_new : S.State → ℕ → List ℕ → ℕ × S.State
    dir_or_new s parent name =
        if dir_id s parent name == 0
        then create_vfs_node s directory name parent end
        else (dir_id s parent name, s)

    abbrev pub behind_dir : ℕ × S.State → (ℕ → S.State → ℕ × S.State) → ℕ × S.State
    behind_dir (zero, s) k = (0, s)
    behind_dir (suc n, s) k = k (suc n) s

    abbrev pub dir_of_contact : S.State → List ℕ → List Object → ℕ × S.State
    dir_of_contact s name [] = (0, s)
    dir_of_contact s name (contact ∷ more) =
        behind_dir (dir_or_new s 0 name)
          (λ out t. dir_or_new t out (to_str rt (at_key (codes "name") contact)))

    unfoldable pub io_dir : S.State → ℕ → List ℕ → ℕ × S.State
    unfolding create_vfs_node
    io_dir s contact name =
        dir_of_contact s name (S.select s contacts (by_id rt (codes "id") contact))

    -- What the code relies on: an inserted row comes last among those that a query gives, if it matches,
    -- with the rowid that `insert` returned, and no row has the rowid 0. A new directory matches the query
    -- for its name, if this is not empty: for an empty one null is bound, which no row matches.
    pub record IsFiled : Type 0 where
      pub inserts :
          (s : S.State) (t u : Key) (r v : Object)
          → has_field (codes "rowid") v ≡ false
          → (q : Object) × (to_ulong rt (at_key (codes "rowid") q) ≡ (S.insert s t r).0)
            × (S.select (S.insert s t r).1 u v
                ≡ S.select s u v
                  ++ (if not ((S.insert s t r).0 == 0) && (same_key t u && S.matches v r)
                      then q ∷ []
                      else []))
      pub has_rowid :
          (s : S.State) (t : Key) (v r : Object)
          → Memᴰ r (S.select s t v)
          → to_ulong rt (at_key (codes "rowid") r) ≢ 0
      pub matches-dir :
          (parent : ℕ) (name : List ℕ)
          → name ≢ []
          → S.matches (dir_query parent name) (node_fields now directory name parent) ≡ true

    module _ (law : IsFiled) where
      -- What a call leaves of a directory: it is found, if the call gave an id.
      abbrev IsFound : ℕ → List ℕ → ℕ × S.State → Type 0
      IsFound parent name r = r.0 ≢ 0 → dir_id r.1 parent name ≡ r.0
