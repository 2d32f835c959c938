-- ===== src/Store/World.antt =====
-- Tables in memory for tests: a directory with a file, two resources that share a blob and one that
-- does not, and a contact with a history of two messages.
use mathlib.Core.List.{Memᴰ}
use mathlib.Core.List.Memᴰ
use mathlib.Core.Bool.{true≢false}
use mathlib.Core.Path.{subst}
use zway_lib.Base.{
  ℕ, ◌≡◌, ◌<◌, refl, true, false, [], ◌∷◌, inl, inr, arith, if◌then◌else◌, ◌==◌, ==_iff, sym, ◌∙◌,
  ap, ◌&&◌, Bool,
}
use zway_lib.Base.{replicate, overwrite}
use zway_lib.Base.Text.{codes}
use zway_lib.Buffer.{of_bytes, create, write}
use zway_lib.Ubj.Fixture.{some_runtime}
use zway_lib.Ubj.Key.{Key, cmp}
use zway_lib.Ubj.Object.{at_key, find}
use zway_lib.Ubj.Value.{Value, value, buffered, Object, end, field, int32, nil, cons, of_array}
use zway_lib.Ubj.Value.Convert.{bytes4, to_uint, of_uint, of_ulong, two32}
use zway_lib.Ubj.Value.Numbers.{to_uint-of_uint}
use zway_lib.Store.{
  vfs, resources, messages, histories, contacts, by_id, by_rowid, by_data, int_at, child_id,
}
use zway_lib.Store.Memory.{
  Rows, memory_tables, memory_tables-IsLawful, select_rows, matches_row, has_number,
  Memᴰ-select_rows, select_rows-matches,
}
use zway_lib.Store.Nodes.{by_parent}
use zway_lib.Store.Nodes.Ends.{IsTree}
use zway_lib.Store.Blobs.{IsNumbered, IsWhole, nil-Memᴰ}

abbrev pub number : ℕ → Value
number n = value int32 (buffered (of_bytes (bytes4 n)))

abbrev pub node : ℕ → ℕ → ℕ → ℕ → Object
node id parent type blob = field (codes "data") (number blob) (
    field (codes "parent") (number parent)
      (field (codes "rowid") (number id) (field (codes "type") (number type) end)))

abbrev pub resource : ℕ → ℕ → ℕ → Object
resource id request blob =
    field (codes "data") (number blob)
      (field (codes "id") (number id) (field (codes "request") (number request) end))

abbrev pub message : ℕ → Object
message id = field (codes "history") (number 3) (field (codes "id") (number id) end)

abbrev pub rows : Rows
rows =
    (vfs, node 1 0 1 0)
    ∷ (vfs, node 2 1 2 7)
    ∷ (resources, resource 5 9 8)
    ∷ (resources, resource 6 9 8)
    ∷ (resources, resource 11 10 13)
    ∷ (messages, message 9)
    ∷ (messages, message 10)
    ∷ (histories, field (codes "rowid") (number 3) end)
    ∷ (
      contacts,
      field (codes "id") (number 4) (field (codes "inbox") (of_array (cons (number 9) nil)) end),
    )
    ∷ []

abbrev pub world : memory_tables.State
world = (rows, 7 ∷ 8 ∷ 13 ∷ [])

abbrev pub depth : ℕ → ℕ
depth n = if n == 0 then 2 else if n == 1 then 1 else 0

abbrev pub height : ℕ → ℕ
height id = depth (to_uint some_runtime (of_ulong some_runtime id))

and_true : (b : Bool) → (b && true) ≡ true → b ≡ true
and_true true e = e
and_true false e = e

pub selected :
    (t : Key) (v r : Object)
    → Memᴰ r (select_rows rows t v)
    → (matches_row v r ≡ true) × Memᴰ r (select_rows rows t end)
unfolding matches_row
selected t v r m =
    let h = Memᴰ-select_rows rows t v r m in (h.0, select_rows-matches rows t end r h.1 refl)

-- What holds of both nodes, of the rows of `vfs`.
each_node :
    (P : Object → Type 0)
    → P (node 1 0 1 0)
    → P (node 2 1 2 7)
    → (v r : Object) → Memᴰ r (select_rows rows vfs v)
    → P r
unfolding select_rows matches_row cmp
each_node P h k v r m = elim (Memᴰ.cases_cons (selected vfs v r m).1) [
  | inl e ↦ subst P (sym e) h
  | inr m' ↦ subst P (sym (Memᴰ.eq_of_singleton m')) k
]

higher_than_dir : (x : ℕ) → ((x == 0) && true) ≡ true → 1 < depth x
higher_than_dir x e = ground arith

higher_than_file : (x : ℕ) → ((x == 1) && true) ≡ true → 0 < depth x
higher_than_file x e = ground arith

pub world-IsTree : IsTree some_runtime memory_tables memory_tables-IsLawful height world
unfolding matches_row to_uint at_key find cmp of_ulong create write overwrite replicate
world-IsTree id r m =
    each_node
      (λ q.
        matches_row (by_parent some_runtime id) q ≡ true
        → height (child_id some_runtime q) < height id)
      (higher_than_dir (to_uint some_runtime (of_ulong some_runtime id)))
      (higher_than_file (to_uint some_runtime (of_ulong some_runtime id)))
      (by_parent some_runtime id) r m (selected vfs (by_parent some_runtime id) r m).0

pub world-IsNumbered : IsNumbered some_runtime memory_tables world
unfolding select_rows matches_row to_uint at_key find cmp of_ulong create write overwrite replicate
world-IsNumbered v r p m = (
  tt,
  (each_node
      (λ r.
        Memᴰ r (memory_tables.select world vfs (by_rowid some_runtime (child_id some_runtime r))))
      (Memᴰ.head refl) (Memᴰ.head refl) v r m),
)

-- Numbers of 32 bits come back.
same_number :
    (b n : ℕ)
    → b < two32
    → ((to_uint some_runtime (of_uint some_runtime b) == n) && true) ≡ true
    → b ≡ n
same_number b n l e =
    let back = (to_uint-of_uint some_runtime b 0 (λ k. refl) l (omega arith)).0 in
    sym back ∙ (==_iff (to_uint some_runtime (of_uint some_runtime b)) n).0 (and_true _ e)

each_resource :
    (P : Object → Type 0)
    → P (resource 5 9 8)
    → P (resource 6 9 8)
    → P (resource 11 10 13)
    → (v r : Object) → Memᴰ r (select_rows rows resources v)
    → P r
unfolding select_rows matches_row cmp
each_resource P h k l v r m = elim (Memᴰ.cases_cons (selected resources v r m).1) [
  | inl e ↦ subst P (sym e) h
  | inr m' ↦ elim (Memᴰ.cases_cons m') [
    | inl e ↦ subst P (sym e) k
    | inr m'' ↦ subst P (sym (Memᴰ.eq_of_singleton m'')) l
  ]
]

-- No row has a blob that is not there.
held :
    (b n : ℕ)
    → b < two32
    → memory_tables.has_blob world b ≡ false
    → memory_tables.has_blob world n ≡ true
    → ((to_uint some_runtime (of_uint some_runtime b) == n) && true) ≡ true
    → ⊥
held b n l e there q =
    true≢false (sym there ∙ ap (memory_tables.has_blob world) (sym (same_number b n l q)) ∙ e)

pub world-IsWhole : IsWhole some_runtime memory_tables world
unfolding matches_row to_uint at_key find cmp has_number
world-IsWhole b l n e =
    let w = by_data some_runtime b in
    (
      nil-Memᴰ (select_rows rows vfs w) (λ r m.
          each_node (λ q. matches_row w q ≡ true → ⊥) (λ q. n (same_number b 0 l q))
            (held b 7 l e refl) w r m (selected vfs w r m).0),
      nil-Memᴰ (select_rows rows resources w) (λ r m.
          each_resource (λ q. matches_row w q ≡ true → ⊥) (held b 8 l e refl) (held b 8 l e refl)
            (held b 13 l e refl) w r m (selected resources w r m).0),
    )

abbrev pub OwnRows : Object → Type 0
OwnRows r =
    (q : Object)
    → Memᴰ q (
        memory_tables.select world resources
          (by_data some_runtime (int_at some_runtime (codes "data") r)))
    → memory_tables.matches (by_id some_runtime (codes "id") 11) q ≡ true

resource-OwnRows : OwnRows (resource 11 10 13)
unfolding select_rows matches_row to_uint at_key find cmp of_uint create write overwrite replicate
resource-OwnRows q m =
    ap (matches_row (by_id some_runtime (codes "id") 11)) (Memᴰ.eq_of_singleton m)

pub unshared :
    (r : Object)
    → Memᴰ r (memory_tables.select world resources (by_id some_runtime (codes "id") 11))
    → OwnRows r
unfolding select_rows matches_row to_uint at_key find cmp of_uint create write overwrite replicate
unshared r m = subst OwnRows (sym (Memᴰ.eq_of_singleton m)) resource-OwnRows
