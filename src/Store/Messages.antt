-- ===== src/Store/Messages.antt =====
-- What `deleteMessage` and `deleteHistory` of src/store.cpp change.
use mathlib.Core.List.{Memᴰ}
use mathlib.Core.List.Memᴰ
use mathlib.Core.Bool.{true≢false}
use mathlib.Core.Path.{subst}
use zway_lib.Base.{
  ℕ, ◌≡◌, refl, sym, ◌∙◌, ap, Bool, true, false, not, List, [], ◌∷◌, length, Bool-cases, inl, inr,
  if◌then◌else◌,
}
use zway_lib.Base.Text.{codes}
use zway_lib.Ubj.Key.{Key, cmp, same_key}
use zway_lib.Ubj.Value.{Runtime, Object}
use zway_lib.Store.{
  Tables, IsLawful, without, resources, messages, histories, by_id, by_rowid, by_history, int_at,
  count, is_none, removed, delete_resources, delete_known, delete_message, delete_messages,
  delete_past, delete_history,
}
use zway_lib.Store.Blobs.{without_none, not-Memᴰ-nil, Fitting, Fits-id}
use zway_lib.Store.Resources.{remove-select, delete_resources-select, delete_resources-Fitting}

without_end : (test : Object → Bool) → without test [] ≡ []
unfolding without
without_end test = refl

module _ (rt : Runtime) (S : Tables) (law : IsLawful S) where
  -- Of the queries that fit: just the rows of `t` that match went, and the call said whether there were any.
  abbrev pub Takes : S.State → Key → Object → Bool × S.State → Type 0
  Takes s t w r =
      (r.0 ≡ not (is_none (count rt S s t w)))
      × ((v : Object) → S.Fits s t v → S.select r.1 t v ≡ without (S.matches w) (S.select s t v))

  -- Nothing was there to match.
  nothing-Takes :
      (s : S.State) (t : Key) (w : Object)
      → S.Fits s t w
      → S.select s t w ≡ []
      → Takes s t w (false, s)
  nothing-Takes s t w f e = (
    ap (λ l. not (is_none (length l))) (sym e),
    λ v g. sym (
        without_none (S.matches w) (S.select s t v) (λ r m. elim (Bool-cases (S.matches w r)) [
          | inl hit ↦ absurd (not-Memᴰ-nil e (law.select-matches s t w v r f g m hit))
          | inr miss ↦ miss
        ])),
  )

  -- A removal behind calls that left the table alone.
  removed-Takes :
      (s u : S.State) (t : Key) (w : Object)
      → S.Fits s t w
      → Fitting rt S s u
      → same_key t t ≡ true
      → ((v : Object) → S.Fits s t v → S.select u t v ≡ S.select s t v)
      → Takes s t w (removed rt S (S.remove u t w))
  removed-Takes s u t w f keep self same = (
    ap (λ n. not (is_none n)) (law.remove-length u t w (keep t w f) ∙ ap length (same w f)),
    λ v g.
        law.select-remove u t t w v (keep t w f) (keep t v g)
        ∙ ap (λ b. if b then without (S.matches w) (S.select u t v) else S.select u t v) self
        ∙ ap (without (S.matches w)) (same v g),
  )

  abbrev pub IsMessageDeleted : S.State → ℕ → Bool × S.State → Type 0
  IsMessageDeleted s id r =
      Takes s messages (by_id rt (codes "id") id) r
      × ((u : Key) (v : Object)
          → S.Fits s u v
          → same_key u messages ≡ false
          → same_key u resources ≡ false
          → S.select r.1 u v ≡ S.select s u v)

  delete_known-lem :
      (s : S.State) (id : ℕ) (found : List Object)
      → S.select s messages (by_id rt (codes "id") id) ≡ found
      → IsMessageDeleted s id (delete_known rt S s id found)
  unfolding cmp
  delete_known-lem s id [] e = (
    nothing-Takes s messages (by_id rt (codes "id") id) (Fits-id rt S law s messages id) e,
    λ u v g h k. refl,
  )
  delete_known-lem s id (rec ∷ more) e =
      let rows = S.select s resources (by_id rt (codes "request") id) in
      let t = delete_resources rt S s rows in
      let w = by_id rt (codes "id") id in
      (
        removed-Takes s t messages w (Fits-id rt S law s messages id)
            (delete_resources-Fitting rt S law s rows) refl
            (λ v g. delete_resources-select rt S law s rows messages v g refl),
        λ u v g h k.
            remove-select rt S law t messages u w v (Fits-id rt S law t messages id)
              (delete_resources-Fitting rt S law s rows u v g) h
            ∙ delete_resources-select rt S law s rows u v g k,
      )

  -- deleteMessage takes just the rows of `messages` with this id, and says whether there were any; of
  -- the other tables it touches `resources` alone.
  pub delete_message_lem : (s : S.State) (id : ℕ) → IsMessageDeleted s id (delete_message rt S s id)
  unfolding delete_message
  delete_message_lem s id =
      delete_known-lem s id (S.select s messages (by_id rt (codes "id") id)) refl

  delete_known-Fitting :
      (s : S.State) (id : ℕ) (found : List Object) → Fitting rt S s (delete_known rt S s id found).1
  delete_known-Fitting s id [] u v g = g
  delete_known-Fitting s id (rec ∷ more) u v g =
      let rows = S.select s resources (by_id rt (codes "request") id) in
      let t = delete_resources rt S s rows in
      law.fits_remove t messages u (by_id rt (codes "id") id) v (Fits-id rt S law t messages id)
        (delete_resources-Fitting rt S law s rows u v g)

  delete_message-Fitting : (s : S.State) (id : ℕ) → Fitting rt S s (delete_message rt S s id).1
  unfolding delete_message
  delete_message-Fitting s id =
      delete_known-Fitting s id (S.select s messages (by_id rt (codes "id") id))

  delete_messages-Fitting :
      (s : S.State) (rows : List Object) → Fitting rt S s (delete_messages rt S s rows)
  unfolding delete_messages
  delete_messages-Fitting s [] u v g = g
  delete_messages-Fitting s (r ∷ rows) u v g =
      let id = int_at rt (codes "id") r in
      delete_messages-Fitting (delete_message rt S s id).1 rows u v
        (delete_message-Fitting s id u v g)

  delete_message-keeps_none :
      (s : S.State) (id : ℕ) (v : Object)
      → S.Fits s messages v
      → S.select s messages v ≡ []
      → S.select (delete_message rt S s id).1 messages v ≡ []
  delete_message-keeps_none s id v g e =
      (delete_message_lem s id).0.1 v g
      ∙ ap (without (S.matches (by_id rt (codes "id") id))) e
      ∙ without_end (S.matches (by_id rt (codes "id") id))

  -- Each call takes one message, and leaves none that went before.
  delete_messages-keeps_none :
      (s : S.State) (rows : List Object) (v : Object)
      → S.Fits s messages v
      → S.select s messages v ≡ []
      → S.select (delete_messages rt S s rows) messages v ≡ []
  unfolding delete_messages
  delete_messages-keeps_none s [] v g e = e
  delete_messages-keeps_none s (r ∷ rows) v g e =
      let id = int_at rt (codes "id") r in
      delete_messages-keeps_none (delete_message rt S s id).1 rows v
        (delete_message-Fitting s id messages v g) (delete_message-keeps_none s id v g e)

  delete_messages-no_message :
      (s : S.State) (rows : List Object) (m : Object)
      → Memᴰ m rows
      → S.select
          (delete_messages rt S s rows)
          messages
          (by_id rt (codes "id") (int_at rt (codes "id") m))
        ≡ []
  unfolding delete_messages
  delete_messages-no_message s [] m h = absurd (Memᴰ.not-nil h)
  delete_messages-no_message s (r ∷ rows) m h =
      let id = int_at rt (codes "id") r in
      let w = by_id rt (codes "id") id in
      let t = (delete_message rt S s id).1 in
      elim (Memᴰ.cases_cons h) [
        | inl same ↦
            subst
              (λ n.
                S.select (delete_messages rt S t rows) messages
                  (by_id rt (codes "id") (int_at rt (codes "id") n))
                ≡ [])
              (sym same)
              (delete_messages-keeps_none t rows w (Fits-id rt S law t messages id) (
                (delete_message_lem s id).0.1 w (Fits-id rt S law s messages id)
                ∙ law.without-select s messages w (Fits-id rt S law s messages id)))
        | inr below ↦ delete_messages-no_message t rows m below
      ]

  delete_messages-select :
      (s : S.State) (rows : List Object) (u : Key) (v : Object)
      → S.Fits s u v
      → same_key u messages ≡ false
      → same_key u resources ≡ false
      → S.select (delete_messages rt S s rows) u v ≡ S.select s u v
  unfolding delete_messages
  delete_messages-select s [] u v g h k = refl
  delete_messages-select s (r ∷ rows) u v g h k =
      let id = int_at rt (codes "id") r in
      delete_messages-select (delete_message rt S s id).1 rows u v
        (delete_message-Fitting s id u v g) h k
      ∙ (delete_message_lem s id).1 u v g h k

  abbrev pub IsHistoryDeleted : S.State → ℕ → Bool × S.State → Type 0
  IsHistoryDeleted s h r =
      Takes s histories (by_rowid rt h) r
      × ((m : Object)
          → r.0 ≡ true
          → Memᴰ m (S.select s messages (by_history rt h))
          → S.select r.1 messages (by_id rt (codes "id") (int_at rt (codes "id") m)) ≡ [])
      × ((u : Key) (v : Object)
          → S.Fits s u v
          → same_key u histories ≡ false
          → same_key u messages ≡ false
          → same_key u resources ≡ false
          → S.select r.1 u v ≡ S.select s u v)

  delete_past-lem :
      (s : S.State) (h : ℕ) (found : List Object)
      → S.Fits s histories (by_rowid rt h)
      → S.select s histories (by_rowid rt h) ≡ found
      → IsHistoryDeleted s h (delete_past rt S s h found)
  unfolding cmp
  delete_past-lem s h [] fits e = (
    nothing-Takes s histories (by_rowid rt h) fits e,
    λ m f i. absurd (true≢false (sym f)),
    λ u v p f g i. refl,
  )
  delete_past-lem s h (rec ∷ more) fits e =
      let rows = S.select s messages (by_history rt h) in
      let t = delete_messages rt S s rows in
      let w = by_rowid rt h in
      let fits' = delete_messages-Fitting s rows histories w fits in
      (
        removed-Takes s t histories w fits (delete_messages-Fitting s rows) refl
            (λ v p. delete_messages-select s rows histories v p refl refl),
        λ m f i.
            remove-select rt S law t histories messages w
              (by_id rt (codes "id") (int_at rt (codes "id") m)) fits'
              (Fits-id rt S law t messages (int_at rt (codes "id") m)) refl
            ∙ delete_messages-no_message s rows m i,
        λ u v p f g i.
            remove-select rt S law t histories u w v fits' (delete_messages-Fitting s rows u v p) f
            ∙ delete_messages-select s rows u v p g i,
      )

  -- If no other table has a row with the rowid that deleteHistory gets, it takes just the history, and
  -- says whether it was there; then no message that it had is found by its id; and of the other tables it
  -- touches `messages` and `resources` alone.
  pub delete_history_lem :
      (s : S.State) (h : ℕ)
      → S.Fits s histories (by_rowid rt h)
      → IsHistoryDeleted s h (delete_history rt S s h)
  unfolding delete_history
  delete_history_lem s h fits = delete_past-lem s h (S.select s histories (by_rowid rt h)) fits refl
