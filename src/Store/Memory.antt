-- ===== src/Store/Memory.antt =====
-- Tables in memory, for tests: rows with their table's name, and the numbers of the blobs.
-- Fields are compared as unsigned numbers of 32 bits.
use mathlib.Core.List.{Memᴰ}
use mathlib.Core.List.Memᴰ
use mathlib.Core.Bool.{true≢false}
use zway_lib.Base.{
  ℕ, ◌≡◌, refl, sym, ap, ap₂, ◌∙◌, ◌⊎◌, inl, inr, Bool, true, false, ◌&&◌, none, List, [], ◌∷◌,
  ◌==◌, if◌then◌else◌, length, map, Bool-cases, arith,
}
use zway_lib.Ubj.Fixture.{some_runtime}
use zway_lib.Ubj.Key.{Key, cmp, cmp_refl, eq_of_cmp, same_key}
use zway_lib.Ubj.Value.{Value, Object, end, field, Array, of_array}
use zway_lib.Ubj.Value.Convert.{to_uint, of_uint}
use zway_lib.Ubj.Object.{at_key, merge, set_field, value_or_null}
use zway_lib.Ubj.Object.Laws.{find-set_field}
use zway_lib.Store.{Tables, IsLawful, without, contacts}
use zway_lib.Store.Inbox.{inbox, IsUpdated}
use zway_lib.Base.Text.{codes}

abbrev pub Rows : Type 0
Rows = List (Key × Object)

unfoldable pub matches_row : Object → Object → Bool
matches_row end r = true
matches_row (field k v w) r =
    let rest = matches_row w r in
    (to_uint some_runtime v == to_uint some_runtime (at_key k r)) && rest

unfoldable pub select_rows : Rows → Key → Object → List Object
select_rows [] t w = []
select_rows ((k, r) ∷ rows) t w =
    let rest = select_rows rows t w in if same_key k t && matches_row w r then r ∷ rest else rest

unfoldable pub remove_rows : Rows → Key → Object → Rows
remove_rows [] t w = []
remove_rows ((k, r) ∷ rows) t w =
    let rest = remove_rows rows t w in
    if same_key k t && matches_row w r then rest else (k, r) ∷ rest

unfoldable pub update_rows : Rows → Key → Object → Object → Rows
update_rows [] t p w = []
update_rows ((k, r) ∷ rows) t p w =
    let rest = update_rows rows t p w in
    (k, if same_key k t && matches_row w r then merge r p else r) ∷ rest

unfoldable pub has_number : ℕ → List ℕ → Bool
has_number b [] = false
has_number b (c ∷ l) = let rest = has_number b l in if c == b then true else rest

unfoldable pub without_number : ℕ → List ℕ → List ℕ
without_number b [] = []
without_number b (c ∷ l) = let rest = without_number b l in if c == b then rest else c ∷ rest

-- Inserted rows get no rowid.
abbrev pub memory_tables : Tables
memory_tables = record {
  State = Rows × List ℕ;
  matches = matches_row;
  select = λ s t w. select_rows s.0 t w;
  insert = λ s t r. (1, ((t, r) ∷ s.0, s.1));
  update = λ s t p w. (length (select_rows s.0 t w), (update_rows s.0 t p w, s.1));
  remove = λ s t w. (length (select_rows s.0 t w), (remove_rows s.0 t w, s.1));
  has_blob = λ s b. has_number b s.1;
  remove_blob = λ s b. (has_number b s.1, (s.0, without_number b s.1));
  get_blob_data = λ s b. none;
  Fits = λ s t w. Unit {0};
}

select-remove_rows :
    (rows : Rows) (t u : Key) (w v : Object)
    → select_rows (remove_rows rows t w) u v ≡ (
        if same_key u t
        then without (matches_row w) (select_rows rows u v)
        else select_rows rows u v)
unfolding select_rows remove_rows without
select-remove_rows [] t u w v = ground arith
select-remove_rows ((k, r) ∷ rows) t u w v = ground (
  arith,
  select-remove_rows rows t u w v,
  eq_of_cmp k t,
  eq_of_cmp k u,
  eq_of_cmp u t,
  cmp_refl t,
  cmp_refl u,
)

pub picked_cases :
    (b : Bool) {r q : Object} {rest : List Object}
    → Memᴰ r (if b then q ∷ rest else rest)
    → Memᴰ r rest ⊎ ((r ≡ q) × (b ≡ true))
picked_cases true m = elim (Memᴰ.cases_cons m) [ inl e ↦ inr (e, refl) | inr m' ↦ inl m' ]
picked_cases false m = inl m

picked_of :
    (b : Bool) {r q : Object} {rest : List Object}
    → Memᴰ r rest ⊎ ((r ≡ q) × (b ≡ true))
    → Memᴰ r (if b then q ∷ rest else rest)
picked_of true (inl m) = Memᴰ.tail m
picked_of true (inr h) = Memᴰ.head h.0
picked_of false (inl m) = m
picked_of false (inr h) = absurd (true≢false (sym h.1))

both : (k t : Key) (b : Bool) → (same_key k t && b) ≡ true → (k ≡ t) × (b ≡ true)
both k t b e = ground (arith, eq_of_cmp k t)

same_and : (k t : Key) (b : Bool) → t ≡ k → b ≡ true → (same_key k t && b) ≡ true
same_and k t b e h = ground (arith, cmp_refl k)

pub Memᴰ-select_rows :
    (rows : Rows) (t : Key) (v r : Object)
    → Memᴰ r (select_rows rows t v)
    → (matches_row v r ≡ true) × Memᴰ (t, r) rows
unfolding select_rows
Memᴰ-select_rows [] t v r m = absurd (Memᴰ.not-nil m)
Memᴰ-select_rows ((k, q) ∷ rows) t v r m = elim (picked_cases (same_key k t && matches_row v q) m) [
  | inl below ↦ let h = Memᴰ-select_rows rows t v r below in (h.0, Memᴰ.tail h.1)
  | inr here ↦
      let h = both k t (matches_row v q) here.1 in
      (ap (matches_row v) here.0 ∙ h.1, Memᴰ.head (ap₂ (λ a b. (a, b)) (sym h.0) here.0))
]

pub select_rows-matches :
    (rows : Rows) (t : Key) (w r : Object)
    → Memᴰ (t, r) rows
    → matches_row w r ≡ true
    → Memᴰ r (select_rows rows t w)
unfolding select_rows
select_rows-matches [] t w r m h = absurd (Memᴰ.not-nil m)
select_rows-matches ((k, q) ∷ rows) t w r m h =
    picked_of (same_key k t && matches_row w q) (elim (Memᴰ.cases_cons m) [
      | inl e ↦ inr (
        ap (λ x. x.1) e,
        same_and k t (matches_row w q) (ap (λ x. x.0) e)
            (ap (matches_row w) (sym (ap (λ x. x.1) e)) ∙ h),
      )
      | inr below ↦ inl (select_rows-matches rows t w r below h)
    ])

without-select_rows :
    (rows : Rows) (t : Key) (w : Object) → without (matches_row w) (select_rows rows t w) ≡ []
unfolding select_rows without
without-select_rows [] t w = refl
without-select_rows ((k, r) ∷ rows) t w = ground (arith, without-select_rows rows t w)

has_number-without_number :
    (b c : ℕ) (l : List ℕ)
    → has_number c (without_number b l) ≡ (if c == b then false else has_number c l)
unfolding has_number without_number
has_number-without_number b c [] = ground arith
has_number-without_number b c (d ∷ l) = ground (arith, has_number-without_number b c l)

pub memory_tables-IsLawful : IsLawful memory_tables
memory_tables-IsLawful = record {
  select-remove = λ s t u w v f g. select-remove_rows s.0 t u w v;
  select-matches =
      λ s t w v r f g m h. select_rows-matches s.0 t w r (Memᴰ-select_rows s.0 t v r m).1 h;
  without-select = λ s t w f. without-select_rows s.0 t w;
  remove-length = λ s t w f. refl;
  has_blob-remove = λ s t w b f. refl;
  select-remove_blob = λ s b u v f. refl;
  fits_plain = λ s t w h. tt;
  fits_remove = λ s t u w v f g. tt;
  fits_remove_blob = λ s b u v f. tt;
  remove_blob_result = λ s b. refl;
  has_blob-remove_blob = λ s b c. has_number-without_number b c s.1;
}

-- A row keeps its id when it gets another inbox.
same_id :
    (v : Value) (ids : Array) (r : Object)
    → matches_row (field (codes "id") v end) (set_field inbox (of_array ids) r)
      ≡ matches_row (field (codes "id") v end) r
unfolding matches_row at_key cmp
same_id v ids r =
    ap (λ q. (to_uint some_runtime v == to_uint some_runtime (value_or_null q)) && true)
      (find-set_field inbox (codes "id") (of_array ids) r)

select-update_rows :
    (rows : Rows) (v : Value) (ids : Array)
    → select_rows
        (update_rows rows contacts (field inbox (of_array ids) end) (field (codes "id") v end))
        contacts
        (field (codes "id") v end)
      ≡ map (set_field inbox (of_array ids)) (select_rows rows contacts (field (codes "id") v end))
unfolding select_rows update_rows merge
select-update_rows [] v ids = refl
select-update_rows ((k, r) ∷ rows) v ids =
    let rest = select-update_rows rows v ids in
    let here = same_id v ids r in
    elim (Bool-cases (same_key k contacts && matches_row (field (codes "id") v end) r)) [
      | inl hit ↦ simp (hit, here, rest) refl
      | inr miss ↦ simp (miss, rest) refl
    ]

pub memory_tables-IsUpdated : IsUpdated some_runtime memory_tables
memory_tables-IsUpdated = record {
  select-set_inbox = λ s id ids. select-update_rows s.0 (of_uint some_runtime id) ids;
}
