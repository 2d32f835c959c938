-- ===== src/Store/Tests.antt =====
-- Runs over tables in memory.
use mathlib.Core.List.{Memᴰ}
use mathlib.Core.List.Memᴰ
use zway_lib.Base.{ℕ, ◌≡◌, ◌≢◌, ◌+◌, ◌||◌, refl, true, false, [], ◌∷◌, arith}
use zway_lib.Base.{replicate, overwrite}
use zway_lib.Base.Text.{codes}
use zway_lib.Buffer.{create, write}
use zway_lib.Ubj.Fixture.{some_runtime}
use zway_lib.Ubj.Key.{cmp}
use zway_lib.Ubj.Object.{at_key, find, length_array}
use zway_lib.Ubj.Value.{Object, field, end, Array, nil, cons, to_array}
use zway_lib.Ubj.Value.Convert.{to_uint, of_uint, of_ulong, of_string}
use zway_lib.Store.{resources, contacts, by_id, by_data, delete_resource, delete_history}
use zway_lib.Store.Memory.{
  memory_tables, memory_tables-IsLawful, memory_tables-IsUpdated, select_rows, matches_row,
  has_number,
}
use zway_lib.Store.Nodes.{delete_vfs_node}
use zway_lib.Store.Nodes.Gone.{Deletes, delete_vfs_node-Deletes}
use zway_lib.Store.Blobs.{IsWhole, not-Memᴰ-nil}
use zway_lib.Ubj.Table.{has_id}
use zway_lib.Store.Inbox.{
  current_inbox, update_inbox, reset_inbox, num_inbox_messages, update_inbox_lem,
}
use zway_lib.Store.Resources.{delete_resource-dangles}
use zway_lib.Store.Resources.Whole.{delete_resource-IsWhole}
use zway_lib.Store.Messages.{IsHistoryDeleted, delete_history_lem}
use zway_lib.Store.Filed.{filed_tables}
use zway_lib.Store.World.{
  number, resource, world, height, world-IsTree, world-IsNumbered, world-IsWhole, unshared,
}

delete_history_lem_example :
    IsHistoryDeleted some_runtime memory_tables memory_tables-IsLawful world 3
      (delete_history some_runtime memory_tables world 3)
delete_history_lem_example =
    delete_history_lem some_runtime memory_tables memory_tables-IsLawful world 3 tt

delete_resource-dangles_example :
    (memory_tables.has_blob (delete_resource some_runtime memory_tables world 5).1 8 ≡ false)
    × Memᴰ (resource 6 9 8) (
        memory_tables.select
          (delete_resource some_runtime memory_tables world 5).1
          resources
          (by_data some_runtime 8))
unfolding select_rows matches_row cmp to_uint at_key find has_number of_uint create write overwrite
    replicate
delete_resource-dangles_example =
    delete_resource-dangles some_runtime memory_tables memory_tables-IsLawful world 5
      (resource 5 9 8) (resource 6 9 8) [] refl (omega arith) refl refl (Memᴰ.tail (Memᴰ.head refl))
      refl

delete_vfs_node-Deletes_example :
    Deletes some_runtime memory_tables memory_tables-IsLawful world 1
      (delete_vfs_node some_runtime memory_tables 2 world 1 true)
unfolding to_uint of_ulong create write overwrite replicate
delete_vfs_node-Deletes_example =
    delete_vfs_node-Deletes some_runtime memory_tables memory_tables-IsLawful height 2 world 1
      world-IsTree (omega arith) world-IsNumbered tt

delete_resource-IsWhole_example :
    IsWhole some_runtime memory_tables (delete_resource some_runtime memory_tables world 11).1
delete_resource-IsWhole_example =
    delete_resource-IsWhole some_runtime memory_tables memory_tables-IsLawful world 11 unshared
      world-IsWhole

one_contact : memory_tables.select world contacts (by_id some_runtime (codes "id") 4) ≢ []
unfolding select_rows matches_row to_uint at_key find cmp of_uint create write overwrite replicate
one_contact e = not-Memᴰ-nil e (Memᴰ.head refl)

abbrev new_ids : Array
new_ids = cons (number 9) (cons (number 10) nil)

update_inbox_lem_example :
    ((m : ℕ)
      → has_id some_runtime m (
          current_inbox some_runtime memory_tables
            (update_inbox some_runtime memory_tables world 4 new_ids).1
            4)
        ≡ (has_id some_runtime m (current_inbox some_runtime memory_tables world 4)
            || has_id some_runtime m new_ids))
    × (num_inbox_messages some_runtime memory_tables
          (update_inbox some_runtime memory_tables world 4 new_ids).1
          4
        ≡ length_array (current_inbox some_runtime memory_tables world 4)
          + (update_inbox some_runtime memory_tables world 4 new_ids).0)
    × (num_inbox_messages some_runtime memory_tables
          (reset_inbox some_runtime memory_tables world 4).1
          4
        ≡ 0)
update_inbox_lem_example =
    update_inbox_lem some_runtime memory_tables memory_tables-IsUpdated (λ n. refl) world 4 new_ids
      one_contact

-- Only the id 10 is new, and two copies of it count twice.
inserted_twice :
    (update_inbox some_runtime memory_tables world 4
      (cons (number 10) (cons (number 10) new_ids))).0
    ≡ 3
unfolding update_inbox select_rows matches_row to_uint at_key find cmp of_uint create write
    overwrite replicate has_id to_array
inserted_twice = refl

abbrev friend : Object
friend =
    field (codes "id") (number 4) (field (codes "name") (of_string some_runtime (codes "ann")) end)

abbrev one_friend : filed_tables.State
one_friend = (contacts, friend) ∷ []
