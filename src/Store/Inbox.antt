-- ===== src/Store/Inbox.antt =====
-- The inbox of a contact: the ids of its unread messages (`updateInbox`, `resetInbox` and
-- `numInboxMessages` of src/store.cpp).
use zway_lib.Base.{
  ℕ, suc, ◌+◌, ◌≡◌, ◌≢◌, refl, sym, ◌∙◌, ap, Bool, true, ◌||◌, List, [], ◌∷◌, map, ◌==◌,
  if◌then◌else◌, if_elim, ==_iff, arith,
}
use zway_lib.Base.Text.{codes}
use zway_lib.Ubj.Key.{Key, cmp}
use zway_lib.Ubj.Value.{Runtime, Value, Object, end, field, Array, nil, cons, of_array, to_array}
use zway_lib.Ubj.Value.Convert.{of_uint, to_uint}
use zway_lib.Ubj.Value.Numbers.{to_uint-of_uint}
use zway_lib.Ubj.Object.{set_field, at_key, value_or_null, push_back, num_items, length_array}
use zway_lib.Ubj.Object.Laws.{find-set_field}
use zway_lib.Ubj.Table.{has_id}
use zway_lib.Ubj.Table.Rows.{to_uint_bound}
use zway_lib.Store.{Tables, contacts, by_id}

abbrev pub inbox : Key
inbox = codes "inbox"

-- `query` into an object that is empty.
abbrev pub first_row : List Object → Object
first_row [] = end
first_row (r ∷ rs) = r

abbrev counted : ℕ × Array → ℕ × Array
counted (n, a) = (suc n, a)

or_true : (b c : Bool) → b ≡ true → (b || c) ≡ true
or_true b c e = ground arith

module _ (rt : Runtime) where
  -- The loop over the new ids. The ids that the inbox had are looked up, those just inserted are not.
  unfoldable pub insert_new : Array → Array → Array → ℕ × Array
  insert_new old now nil = (0, now)
  insert_new old now (cons v ids) =
      let id = to_uint rt v in
      let skipped = insert_new old now ids in
      let inserted = counted (insert_new old (push_back now (of_uint rt id)) ids) in
      if has_id rt id old then skipped else inserted

  module _ (S : Tables) where
    abbrev pub contact_of : S.State → ℕ → Object
    contact_of s id = first_row (S.select s contacts (by_id rt (codes "id") id))

    abbrev pub current_inbox : S.State → ℕ → Array
    current_inbox s id = to_array (at_key inbox (contact_of s id))

    abbrev pub set_inbox : S.State → ℕ → Array → ℕ × S.State
    set_inbox s id ids =
        S.update s contacts (field inbox (of_array ids) end) (by_id rt (codes "id") id)

    unfoldable pub update_inbox : S.State → ℕ → Array → ℕ × S.State
    unfolding insert_new
    update_inbox s id ids =
        let old = current_inbox s id in
        let r = insert_new old old ids in (r.0, (set_inbox s id r.1).1)

    unfoldable pub reset_inbox : S.State → ℕ → ℕ × S.State
    reset_inbox s id = (0, (set_inbox s id nil).1)

    unfoldable pub num_inbox_messages : S.State → ℕ → ℕ
    num_inbox_messages s id = num_items (at_key inbox (contact_of s id))

    -- What the code relies on: the rows of a contact are those that it had, with the inbox replaced.
    pub record IsUpdated : Type 0 where
      pub select-set_inbox :
          (s : S.State) (id : ℕ) (ids : Array)
          → S.select (set_inbox s id ids).1 contacts (by_id rt (codes "id") id)
            ≡ map (set_field inbox (of_array ids)) (S.select s contacts (by_id rt (codes "id") id))

  length-push_back : (a : Array) (v : Value) → length_array (push_back a v) ≡ suc (length_array a)
  unfolding length_array push_back
  length-push_back nil v = refl
  length-push_back (cons w a) v = ap suc (length-push_back a v)

  has_id-push_back :
      (m : ℕ) (a : Array) (v : Value)
      → has_id rt m (push_back a v) ≡ (has_id rt m a || (to_uint rt v == m))
  unfolding has_id push_back
  has_id-push_back m nil v = ground arith
  has_id-push_back m (cons w a) v = ground (arith, has_id-push_back m a v)

  length-insert_new :
      (old now ids : Array)
      → length_array (insert_new old now ids).1 ≡ length_array now + (insert_new old now ids).0
  unfolding insert_new
  length-insert_new old now nil = omega arith
  length-insert_new old now (cons v ids) =
      let w = of_uint rt (to_uint rt v) in
      ground (
        arith,
        length-insert_new old now ids,
        length-insert_new old (push_back now w) ids,
        length-push_back now w,
      )

  same_id :
      (old now : Array) (m id : ℕ)
      → has_id rt id old ≡ true
      → (has_id rt m old ≡ true → has_id rt m now ≡ true)
      → (id == m) ≡ true
      → has_id rt m now ≡ true
  same_id old now m id e h q = h (ap (λ k. has_id rt k old) (sym ((==_iff id m).0 q)) ∙ e)

  has_id-insert_new :
      (memory : (n : ℕ) → rt.malloc n ≡ true) (m : ℕ) (old now ids : Array)
      → (has_id rt m old ≡ true → has_id rt m now ≡ true)
      → has_id rt m (insert_new old now ids).1 ≡ (has_id rt m now || has_id rt m ids)
  unfolding insert_new has_id
  has_id-insert_new memory m old now nil h = ground arith
  has_id-insert_new memory m old now (cons v ids) h =
      let id = to_uint rt v in
      let w = of_uint rt id in
      let back = (to_uint-of_uint rt id 0 memory (to_uint_bound rt v) (omega arith)).0 in
      let pushed = has_id-push_back m now w in
      if_elim
        (λ (r : ℕ × Array).
          has_id rt m r.1 ≡ (has_id rt m now || (to_uint rt v == m || has_id rt m ids)))
        (has_id rt id old) _ _
        (λ e. ground (arith, has_id-insert_new memory m old now ids h, same_id old now m id e h))
        (λ e. ground (
          arith,
          has_id-insert_new memory m old (push_back now w) ids
              (λ q. pushed ∙ or_true (has_id rt m now) (to_uint rt w == m) (h q)),
          back,
          pushed,
        ))

  module _ (S : Tables) (law : IsUpdated S) where
    -- The contact's row afterwards.
    at_inbox :
        (ids : Array) (rows : List Object)
        → rows ≢ []
        → at_key inbox (first_row (map (set_field inbox (of_array ids)) rows)) ≡ of_array ids
    unfolding at_key cmp
    at_inbox ids [] h = absurd (h refl)
    at_inbox ids (r ∷ rows) h = ap value_or_null (find-set_field inbox inbox (of_array ids) r)

    as_array : (m : ℕ) (a : Array) → has_id rt m (to_array (of_array a)) ≡ has_id rt m a
    unfolding to_array
    as_array m a = refl

    inbox-set_inbox :
        (s : S.State) (id : ℕ) (ids : Array)
        → S.select s contacts (by_id rt (codes "id") id) ≢ []
        → at_key inbox (contact_of S (set_inbox S s id ids).1 id) ≡ of_array ids
    inbox-set_inbox s id ids there =
        ap (λ rows. at_key inbox (first_row rows)) (law.select-set_inbox s id ids)
        ∙ at_inbox ids (S.select s contacts (by_id rt (codes "id") id)) there

    -- While memory lasts, and if the contact is there: behind updateInbox the inbox holds an id of
    -- 32 bits just if it held it before or was given it, it has grown by just the number that was
    -- returned, numInboxMessages counts it, and resetInbox empties it.
    pub update_inbox_lem :
        (memory : (n : ℕ) → rt.malloc n ≡ true) (s : S.State) (id : ℕ) (ids : Array)
        → S.select s contacts (by_id rt (codes "id") id) ≢ []
        → ((m : ℕ)
            → has_id rt m (current_inbox S (update_inbox S s id ids).1 id)
              ≡ (has_id rt m (current_inbox S s id) || has_id rt m ids))
          × (num_inbox_messages S (update_inbox S s id ids).1 id
              ≡ length_array (current_inbox S s id) + (update_inbox S s id ids).0)
          × (num_inbox_messages S (reset_inbox S s id).1 id ≡ 0)
    unfolding update_inbox reset_inbox num_inbox_messages num_items length_array
    update_inbox_lem memory s id ids there =
        let old = current_inbox S s id in
        let r = insert_new old old ids in
        let now = inbox-set_inbox s id r.1 there in
        (
          λ m.
              ap (λ v. has_id rt m (to_array v)) now
              ∙ as_array m r.1
              ∙ has_id-insert_new memory m old old ids (λ h. h),
          ap num_items now ∙ length-insert_new old old ids,
          ap num_items (inbox-set_inbox s id nil there),
        )
