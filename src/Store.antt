-- ===== src/Store.antt =====
-- `Zway::Store` of src/store.cpp: messages, histories, resources, files and contacts in the tables of
-- an `UBJ::Store`.
-- What the tables do is an interface: the rows that a query by equal fields gives, and how `insert`,
-- `update`, `remove` and `removeBlob` change them. A row has its `rowid` as a field; the fields that a
-- query asks for are among those of its rows. Blobs are those of the table `blob3`.
pub mod Blobs
pub mod Nodes
pub mod Resources
pub mod Messages
pub mod Inbox
pub mod Folders
pub mod Memory
mod Filed
mod World
mod Tests
use mathlib.Core.List.{Memᴰ}
use zway_lib.Base.{
  ℕ, ◌≡◌, Bool, true, false, not, Option, List, [], ◌∷◌, ◌==◌, if◌then◌else◌, length,
}
use zway_lib.Base.Text.{codes}
use zway_lib.Buffer.{MemoryBuffer}
use zway_lib.Ubj.Key.{Key, same_key}
use zway_lib.Ubj.Value.{Runtime, Object, end, field}
use zway_lib.Ubj.Value.Convert.{of_uint, of_ulong, to_uint, to_int, word, two64}
use zway_lib.Ubj.Object.{at_key, has_field}

-- `Fits s t w` says that no other table than `t` has a row with a rowid that the query `w` asks for:
-- `VirtualTableModule::xFilter` of src/ubj/store/module.cpp would give such a row for one of `t`.
pub record Tables : Type 1 where
  pub State : Type 0
  pub matches : Object → Object → Bool
  pub select : State → Key → Object → List Object
  pub insert : State → Key → Object → ℕ × State
  pub update : State → Key → Object → Object → ℕ × State
  pub remove : State → Key → Object → ℕ × State
  pub has_blob : State → ℕ → Bool
  pub remove_blob : State → ℕ → Bool × State
  pub get_blob_data : State → ℕ → Option MemoryBuffer
  pub Fits : State → Key → Object → Type 0

-- The rows that do not match.
unfoldable pub without : (Object → Bool) → List Object → List Object
without test [] = []
without test (r ∷ rs) = let rest = without test rs in if test r then rest else r ∷ rest

-- What the code relies on, for queries that fit: a query gives each row that matches; `remove` takes away just the rows that match and says how many there were,
-- and leaves the blobs alone; `removeBlob` takes away one blob, if it is there, and leaves the rows.
pub record IsLawful (S : Tables) : Type 0 where
  pub select-remove :
      (s : S.State) (t u : Key) (w v : Object)
      → S.Fits s t w
      → S.Fits s u v
      → S.select (S.remove s t w).1 u v
        ≡ (if same_key u t then without (S.matches w) (S.select s u v) else S.select s u v)
  pub select-matches :
      (s : S.State) (t : Key) (w v r : Object)
      → S.Fits s t w
      → S.Fits s t v
      → Memᴰ r (S.select s t v)
      → S.matches w r ≡ true
      → Memᴰ r (S.select s t w)
  pub without-select :
      (s : S.State) (t : Key) (w : Object)
      → S.Fits s t w
      → without (S.matches w) (S.select s t w) ≡ []
  pub remove-length :
      (s : S.State) (t : Key) (w : Object)
      → S.Fits s t w
      → (S.remove s t w).0 ≡ length (S.select s t w)
  pub has_blob-remove :
      (s : S.State) (t : Key) (w : Object) (b : ℕ)
      → S.Fits s t w
      → S.has_blob (S.remove s t w).1 b ≡ S.has_blob s b
  pub select-remove_blob :
      (s : S.State) (b : ℕ) (u : Key) (v : Object)
      → S.Fits s u v
      → S.select (S.remove_blob s b).1 u v ≡ S.select s u v
  -- A query that asks for no rowid fits, and a row that goes takes its rowid with it.
  pub fits_plain :
      (s : S.State) (t : Key) (w : Object) → has_field (codes "rowid") w ≡ false → S.Fits s t w
  pub fits_remove :
      (s : S.State) (t u : Key) (w v : Object)
      → S.Fits s t w
      → S.Fits s u v
      → S.Fits (S.remove s t w).1 u v
  pub fits_remove_blob :
      (s : S.State) (b : ℕ) (u : Key) (v : Object) → S.Fits s u v → S.Fits (S.remove_blob s b).1 u v
  pub remove_blob_result : (s : S.State) (b : ℕ) → (S.remove_blob s b).0 ≡ S.has_blob s b
  pub has_blob-remove_blob :
      (s : S.State) (b c : ℕ)
      → S.has_blob (S.remove_blob s b).1 c ≡ (if c == b then false else S.has_blob s c)

-- `VfsNodeType`
abbrev pub directory : ℕ
directory = 1

abbrev pub file : ℕ
file = 2

abbrev pub vfs : Key
vfs = codes "vfs"

abbrev pub resources : Key
resources = codes "resources"

abbrev pub messages : Key
messages = codes "messages"

abbrev pub histories : Key
histories = codes "histories"

abbrev pub contacts : Key
contacts = codes "contacts"

abbrev pub is_none : ℕ → Bool
is_none n = n == 0

module _ (rt : Runtime) where
  -- `UBJ_OBJ(key << id)`
  abbrev pub by_id : Key → ℕ → Object
  by_id k id = field k (of_uint rt id) end

  abbrev pub by_rowid : ℕ → Object
  by_rowid id = field (codes "rowid") (of_ulong rt id) end

  abbrev pub by_data : ℕ → Object
  by_data blob = by_id (codes "data") blob

  -- `row[key].toInt()`
  abbrev pub int_at : Key → Object → ℕ
  int_at k row = to_uint rt (at_key k row)

  abbrev pub by_history : ℕ → Object
  by_history history = field (codes "history") (of_ulong rt history) end

  -- The `toInt` of a rowid as a parameter of 64 bits: its sign is extended.
  abbrev pub child_id : Object → ℕ
  child_id row = word two64 (to_int rt (at_key (codes "rowid") row))

  module _ (S : Tables) where
    abbrev pub count : S.State → Key → Object → ℕ
    count s t w = length (S.select s t w)

    -- Whether a call returned anything but 0.
    abbrev pub removed : ℕ × S.State → Bool × S.State
    removed (n, s) = (not (is_none n), s)

    abbrev pub remove_row : ℕ → Bool × S.State → Bool × S.State
    remove_row id (false, s) = (false, s)
    remove_row id (true, s) = removed (S.remove s resources (by_id (codes "id") id))

    -- A blob that no file holds.
    abbrev pub drop_data : S.State → ℕ → Bool × S.State
    drop_data s blob =
        if is_none blob
        then (true, s)
        else if is_none (count s vfs (by_data blob))
        then S.remove_blob s blob
        else (true, s)

    abbrev pub delete_found : S.State → ℕ → List Object → Bool × S.State
    delete_found s id [] = (false, s)
    delete_found s id (rec ∷ more) = remove_row id (drop_data s (int_at (codes "data") rec))

    unfoldable pub delete_resource : S.State → ℕ → Bool × S.State
    delete_resource s id = delete_found s id (S.select s resources (by_id (codes "id") id))

    -- The results of the calls are not looked at.
    unfoldable pub delete_resources : S.State → List Object → S.State
    delete_resources s [] = s
    delete_resources s (r ∷ rs) = delete_resources (delete_resource s (int_at (codes "id") r)).1 rs

    abbrev pub delete_known : S.State → ℕ → List Object → Bool × S.State
    delete_known s id [] = (false, s)
    delete_known s id (rec ∷ more) = removed (
        S.remove (delete_resources s (S.select s resources (by_id (codes "request") id))) messages
          (by_id (codes "id") id))

    unfoldable pub delete_message : S.State → ℕ → Bool × S.State
    unfolding delete_resources
    delete_message s id = delete_known s id (S.select s messages (by_id (codes "id") id))

    unfoldable pub delete_messages : S.State → List Object → S.State
    delete_messages s [] = s
    delete_messages s (r ∷ rs) = delete_messages (delete_message s (int_at (codes "id") r)).1 rs

    abbrev pub delete_past : S.State → ℕ → List Object → Bool × S.State
    delete_past s history [] = (false, s)
    delete_past s history (rec ∷ more) = removed (
        S.remove (delete_messages s (S.select s messages (by_history history))) histories
          (by_rowid history))

    unfoldable pub delete_history : S.State → ℕ → Bool × S.State
    unfolding delete_messages
    delete_history s history = delete_past s history (S.select s histories (by_rowid history))
