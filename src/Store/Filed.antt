-- ===== src/Store/Filed.antt =====
-- Tables for a test of directories: a row's rowid is its place, and begins again after 1000 rows.
use zway_lib.Base.{
  ℕ, zero, suc, ◌+◌, ◌%◌, ◌≡◌, ◌≢◌, refl, ◌∙◌, ap, true, false, ◌&&◌, none, inl, inr, List, [], ◌∷◌,
  ◌++◌, Bool, not, ◌==◌, if◌then◌else◌, length, arith,
}
use zway_lib.Base.{replicate, overwrite}
use zway_lib.Buffer.{create, write}
use zway_lib.Base.Text.{codes}
use zway_lib.Ubj.Fixture.{some_runtime}
use zway_lib.Ubj.Key.{Key, cmp, same_key}
use zway_lib.Ubj.Value.{Object, field}
use zway_lib.Ubj.Value.Convert.{of_int, of_ulong, to_ulong, to_uint}
use zway_lib.Ubj.Value.Numbers.{to_uint-of_uint}
use zway_lib.Ubj.Object.{at_key, find}
use zway_lib.Store.{Tables, directory}
use mathlib.Core.List.{Memᴰ}
use mathlib.Core.List.Memᴰ
use zway_lib.Store.Memory.{Rows, matches_row, picked_cases}
use zway_lib.Store.Folders.{parent_value, node_fields, dir_query, IsFiled}

unfoldable pub select_from : ℕ → Rows → Key → Object → List Object
select_from i [] t w = []
select_from i ((k, r) ∷ rows) t w =
    let rest = select_from (suc i) rows t w in
    let row = field (codes "rowid") (of_ulong some_runtime (suc (i % 1000))) r in
    if same_key k t && matches_row w r then row ∷ rest else rest

abbrev pub filed_tables : Tables
filed_tables = record {
  State = Rows;
  matches = matches_row;
  select = λ s t w. select_from 0 s t w;
  insert = λ s t r. (suc (length s % 1000), s ++ ((t, r) ∷ []));
  update = λ s t p w. (0, s);
  remove = λ s t w. (0, s);
  has_blob = λ s b. false;
  remove_blob = λ s b. (false, s);
  get_blob_data = λ s b. none;
  Fits = λ s t w. Unit {0};
}

select_from-append :
    (i : ℕ) (rows : Rows) (k t : Key) (r w : Object)
    → select_from i (rows ++ ((k, r) ∷ [])) t w
      ≡ select_from i rows t w ++ select_from (i + length rows) ((k, r) ∷ []) t w
unfolding select_from
select_from-append i [] k t r w = ap (λ j. select_from j ((k, r) ∷ []) t w) (omega arith)
select_from-append i ((j, q) ∷ rows) k t r w =
    let e : suc i + length rows ≡ i + suc (length rows) = omega arith in
    ground (arith, select_from-append (suc i) rows k t r w, e)

rowid_lem :
    (i : ℕ) → to_ulong some_runtime (of_ulong some_runtime (suc (i % 1000))) ≡ suc (i % 1000)
rowid_lem i =
    (to_uint-of_uint some_runtime 0 (suc (i % 1000)) (λ n. refl) (omega arith) (omega arith)).1

-- The row that `insert` adds.
abbrev filed : ℕ → Object → Object
filed i r = field (codes "rowid") (of_ulong some_runtime (suc (i % 1000))) r

filed_lem :
    (i : ℕ) (r : Object)
    → to_ulong some_runtime (at_key (codes "rowid") (filed i r)) ≡ suc (i % 1000)
unfolding at_key find cmp
filed_lem i r = rowid_lem i

from_has_rowid :
    (i : ℕ) (rows : Rows) (t : Key) (v r : Object)
    → Memᴰ r (select_from i rows t v)
    → to_ulong some_runtime (at_key (codes "rowid") r) ≢ 0
unfolding select_from
from_has_rowid i [] t v r m = absurd (Memᴰ.not-nil m)
from_has_rowid i ((k, q) ∷ rows) t v r m = elim (picked_cases (same_key k t && matches_row v q) m) [
  | inl below ↦ from_has_rowid (suc i) rows t v r below
  | inr here ↦ λ z.
      let e = ap (λ x. to_ulong some_runtime (at_key (codes "rowid") x)) (here.0) in
      absurd (omega (arith, e, z, filed_lem i q))
]

parent_same :
    (p : ℕ)
    → to_uint some_runtime (parent_value some_runtime p)
      ≡ to_uint some_runtime (of_ulong some_runtime p)
unfolding to_uint of_int of_ulong create write overwrite replicate
parent_same zero = refl
parent_same (suc p) = refl

node-matches :
    (now p : ℕ) (n : List ℕ)
    → matches_row (dir_query some_runtime p n) (node_fields some_runtime now directory n p) ≡ true
unfolding matches_row at_key find cmp
node-matches now p n = ground (arith, parent_same p)

from_zero : (n : ℕ) → 0 + n ≡ n
from_zero n = omega arith

not_zero : (n : ℕ) (b : Bool) → b ≡ (not (suc n == 0) && b)
not_zero n b = ground arith

one_row :
    (i n : ℕ) (t u : Key) (r v : Object)
    → select_from i ((t, r) ∷ []) u v
      ≡ (if not (suc n == 0) && (same_key t u && matches_row v r) then filed i r ∷ [] else [])
unfolding select_from
one_row i n t u r v =
    ap (λ b. if b then filed i r ∷ [] else []) (not_zero n (same_key t u && matches_row v r))

pub filed_tables-IsFiled : IsFiled some_runtime filed_tables 0
filed_tables-IsFiled = record {
  inserts = λ s t u r v p. (
    filed (length s) r,
    filed_lem (length s) r,
    select_from-append 0 s t u r v
        ∙ ap (λ i. select_from 0 s u v ++ select_from i ((t, r) ∷ []) u v) (from_zero (length s))
        ∙ ap (λ l. select_from 0 s u v ++ l) (one_row (length s) (length s % 1000) t u r v),
  );
  has_rowid = λ s t v r m. from_has_rowid 0 s t v r m;
  matches-dir = λ p n h. node-matches 0 p n;
}
