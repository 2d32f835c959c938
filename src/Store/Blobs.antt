-- ===== src/Store/Blobs.antt =====
-- What a deletion of src/store.cpp may change in the tables: rows, rows found by their rowid, and the
-- blobs that rows have.
use mathlib.Core.List.{Memᴰ}
use mathlib.Core.List.Memᴰ
use mathlib.Core.Path.{subst}
use zway_lib.Base.{
  ℕ, ◌<◌, ◌≡◌, refl, sym, ◌∙◌, ap, ◌≢◌, Bool, true, false, List, [], ◌∷◌, ◌==◌, if◌then◌else◌,
  length, ◌⊎◌, inl, inr, arith,
}
use mathlib.Core.Bool.{true≢false}
use zway_lib.Ubj.Key.{Key, cmp, same_key}
use zway_lib.Ubj.Value.{Runtime, Object}
use zway_lib.Ubj.Value.Convert.{two32}
use zway_lib.Base.Text.{codes}
use zway_lib.Ubj.Object.{find, has_field}
use zway_lib.Store.{Tables, IsLawful, without, vfs, resources, by_id, by_rowid, by_data, child_id}

kept_cases :
    (b : Bool) {r x : Object} {rest : List Object}
    → Memᴰ r (if b then rest else x ∷ rest)
    → Memᴰ r rest ⊎ ((r ≡ x) × (b ≡ false))
kept_cases true m = inl m
kept_cases false m = elim (Memᴰ.cases_cons m) [ inl e ↦ inr (e, refl) | inr m' ↦ inl m' ]

kept_of :
    (b : Bool) {r x : Object} {rest : List Object}
    → Memᴰ r rest ⊎ ((r ≡ x) × (b ≡ false))
    → Memᴰ r (if b then rest else x ∷ rest)
kept_of true (inl m) = m
kept_of true (inr h) = absurd (true≢false h.1)
kept_of false (inl m) = Memᴰ.tail m
kept_of false (inr h) = Memᴰ.head h.0

pub Memᴰ-without :
    (test : Object → Bool) (r : Object) (l : List Object)
    → Memᴰ r (without test l)
    → Memᴰ r l × (test r ≡ false)
unfolding without
Memᴰ-without test r [] m = absurd (Memᴰ.not-nil m)
Memᴰ-without test r (x ∷ l) m = elim (kept_cases (test x) m) [
  | inl m' ↦ let below = Memᴰ-without test r l m' in (Memᴰ.tail below.0, below.1)
  | inr here ↦ (Memᴰ.head here.0, ap test here.0 ∙ here.1)
]

pub without-Memᴰ :
    (test : Object → Bool) (r : Object) (l : List Object)
    → test r ≡ false
    → Memᴰ r l
    → Memᴰ r (without test l)
unfolding without
without-Memᴰ test r [] h m = absurd (Memᴰ.not-nil m)
without-Memᴰ test r (x ∷ l) h m = kept_of (test x) (elim (Memᴰ.cases_cons m) [
  | inl same ↦ inr (same, ap test (sym same) ∙ h)
  | inr m' ↦ inl (without-Memᴰ test r l h m')
])

pub without_none :
    (test : Object → Bool) (l : List Object)
    → ((r : Object) → Memᴰ r l → test r ≡ false)
    → without test l ≡ l
unfolding without
without_none test [] h = refl
without_none test (x ∷ l) h =
    ap (λ b. if b then without test l else x ∷ without test l) (h x (Memᴰ.head refl))
    ∙ ap (◌∷◌ x) (without_none test l (λ r m. h r (Memᴰ.tail m)))

taken_cases :
    (b : Bool) (test : Object → Bool) (r : Object) (l : List Object)
    → Memᴰ r (if b then without test l else l)
    → Memᴰ r l × (b ≡ true → test r ≡ false)
taken_cases true test r l m = let h = Memᴰ-without test r l m in (h.0, λ e. h.1)
taken_cases false test r l m = (m, λ e. absurd (true≢false (sym e)))

taken_of :
    (b : Bool) (test : Object → Bool) (r : Object) (l : List Object)
    → (b ≡ true → test r ≡ false)
    → Memᴰ r l
    → Memᴰ r (if b then without test l else l)
taken_of true test r l h m = without-Memᴰ test r l (h refl) m
taken_of false test r l h m = m

pub same_or_gone :
    (b c : ℕ) (x : Bool) → (if c == b then false else x) ≡ false → (c ≡ b) ⊎ (x ≡ false)
same_or_gone b c x e = ground arith

pub nil_of_length : (l : List Object) → length l ≡ 0 → l ≡ []
nil_of_length [] e = refl
nil_of_length (x ∷ l) e = absurd (omega arith)

pub nil-Memᴰ : (l : List Object) → ((r : Object) → Memᴰ r l → ⊥) → l ≡ []
nil-Memᴰ [] h = refl
nil-Memᴰ (x ∷ l) h = absurd (h x (Memᴰ.head refl))

pub not-Memᴰ-nil : {r : Object} {l : List Object} → l ≡ [] → Memᴰ r l → ⊥
not-Memᴰ-nil {r} e m = Memᴰ.not-nil (subst (Memᴰ r) e m)

module _ (rt : Runtime) (S : Tables) where
  -- A query that fits goes on to fit.
  abbrev pub Fitting : S.State → S.State → Type 0
  Fitting s s' = (t : Key) (v : Object) → S.Fits s t v → S.Fits s' t v

  -- No row of `t` has come from one state to the other.
  abbrev pub Shrinks : S.State → S.State → Type 0
  Shrinks s s' =
      (t : Key) (v r : Object) → S.Fits s t v → Memᴰ r (S.select s' t v) → Memᴰ r (S.select s t v)

  -- A row is among those with the rowid that `toInt` reads from it, and no other table has a row with it.
  abbrev pub IsNumbered : S.State → Type 0
  IsNumbered s =
      (v r : Object)
      → has_field (codes "rowid") v ≡ false
      → Memᴰ r (S.select s vfs v)
      → S.Fits s vfs (by_rowid rt (child_id rt r))
        × Memᴰ r (S.select s vfs (by_rowid rt (child_id rt r)))

  -- A blob that a file or a resource has is there. Their numbers have 32 bits.
  abbrev pub IsWhole : S.State → Type 0
  IsWhole s =
      (b : ℕ)
      → b < two32
      → b ≢ 0
      → S.has_blob s b ≡ false
      → (S.select s vfs (by_data rt b) ≡ []) × (S.select s resources (by_data rt b) ≡ [])

  pub record Keeps (s s' : S.State) : Type 0 where
    pub fitting : Fitting s s'
    pub shrinks : Shrinks s s'
    pub numbered : IsNumbered s → IsNumbered s'
    pub whole : IsWhole s → IsWhole s'

  pub Keeps-refl : (s : S.State) → Keeps s s
  Keeps-refl s = record {
    fitting = λ t v f. f;
    shrinks = λ t v r f m. m;
    numbered = λ h. h;
    whole = λ h. h;
  }

  pub Keeps-trans : {s t u : S.State} → Keeps s t → Keeps t u → Keeps s u
  Keeps-trans h k = record {
    fitting = λ t v f. k.fitting t v (h.fitting t v f);
    shrinks = λ t v r f m. h.shrinks t v r f (k.shrinks t v r (h.fitting t v f) m);
    numbered = λ n. k.numbered (h.numbered n);
    whole = λ w. k.whole (h.whole w);
  }

  pub stays_empty :
      {s s' : S.State}
      → Shrinks s s'
      → (t : Key) (v : Object) → S.Fits s t v
      → S.select s t v ≡ []
      → S.select s' t v ≡ []
  stays_empty h t v f e = nil-Memᴰ (S.select _ t v) (λ r m. not-Memᴰ-nil e (h t v r f m))

  module _ (law : IsLawful S) where
    -- Queries by one field.
    pub Fits-data : (s : S.State) (t : Key) (b : ℕ) → S.Fits s t (by_data rt b)
    unfolding has_field find cmp
    Fits-data s t b = law.fits_plain s t (by_data rt b) refl

    pub Fits-id : (s : S.State) (t : Key) (n : ℕ) → S.Fits s t (by_id rt (codes "id") n)
    unfolding has_field find cmp
    Fits-id s t n = law.fits_plain s t (by_id rt (codes "id") n) refl

    removed_cases :
        (s : S.State) (t u : Key) (w v r : Object)
        → S.Fits s t w
        → S.Fits s u v
        → Memᴰ r (S.select (S.remove s t w).1 u v)
        → Memᴰ r (S.select s u v) × (same_key u t ≡ true → S.matches w r ≡ false)
    removed_cases s t u w v r f g m =
        taken_cases (same_key u t) (S.matches w) r (S.select s u v)
          (subst (Memᴰ r) (law.select-remove s t u w v f g) m)

    pub Keeps-remove :
        (s : S.State) (t : Key) (w : Object) → S.Fits s t w → Keeps s (S.remove s t w).1
    Keeps-remove s t w f =
        let shrinks : Shrinks s (S.remove s t w).1 =
          λ u v r g m. (removed_cases s t u w v r f g m).0 in
        record {
          fitting = λ u v g. law.fits_remove s t u w v f g;
          shrinks = shrinks;
          numbered = λ h v r p m.
              let c = removed_cases s t vfs w v r f (law.fits_plain s vfs v p) m in
              let own = by_rowid rt (child_id rt r) in
              let old = h v r p c.0 in
              (
                law.fits_remove s t vfs w own f old.0,
                subst (Memᴰ r) (sym (law.select-remove s t vfs w own f old.0))
                    (taken_of (same_key vfs t) (S.matches w) r (S.select s vfs own) c.1 old.1),
              );
          whole = λ h b l n e.
              let old = h b l n (sym (law.has_blob-remove s t w b f) ∙ e) in
              (
                stays_empty shrinks vfs (by_data rt b) (Fits-data s vfs b) old.0,
                stays_empty shrinks resources (by_data rt b) (Fits-data s resources b) old.1,
              );
        }

    pub Shrinks-remove_blob : (s : S.State) (b : ℕ) → Shrinks s (S.remove_blob s b).1
    Shrinks-remove_blob s b t v r f m = subst (Memᴰ r) (law.select-remove_blob s b t v f) m

    unheld :
        (s : S.State) (b c : ℕ)
        → S.select s vfs (by_data rt b) ≡ []
        → S.select s resources (by_data rt b) ≡ []
        → (S.has_blob s c ≡ false
            → (S.select s vfs (by_data rt c) ≡ []) × (S.select s resources (by_data rt c) ≡ []))
        → S.has_blob (S.remove_blob s b).1 c ≡ false
        → (S.select s vfs (by_data rt c) ≡ []) × (S.select s resources (by_data rt c) ≡ [])
    unheld s b c no_file no_resource h e =
        elim (same_or_gone b c (S.has_blob s c) (sym (law.has_blob-remove_blob s b c) ∙ e)) [
          | inl same ↦
              let eq : by_data rt c ≡ by_data rt b = ap (by_data rt) same in
              (ap (S.select s vfs) eq ∙ no_file, ap (S.select s resources) eq ∙ no_resource)
          | inr gone ↦ h gone
        ]

    pub Keeps-remove_blob :
        (s : S.State) (b : ℕ)
        → S.select s vfs (by_data rt b) ≡ []
        → S.select s resources (by_data rt b) ≡ []
        → Keeps s (S.remove_blob s b).1
    Keeps-remove_blob s b no_file no_resource = record {
      fitting = λ u v g. law.fits_remove_blob s b u v g;
      shrinks = Shrinks-remove_blob s b;
      numbered = λ h v r p m.
          let own = by_rowid rt (child_id rt r) in
          let old =
            h v r p
              (subst (Memᴰ r) (law.select-remove_blob s b vfs v (law.fits_plain s vfs v p)) m) in
          (
            law.fits_remove_blob s b vfs own old.0,
            subst (Memᴰ r) (sym (law.select-remove_blob s b vfs own old.0)) old.1,
          );
      whole = λ h c l n e.
          let old = unheld s b c no_file no_resource (h c l n) e in
          (
            law.select-remove_blob s b vfs (by_data rt c) (Fits-data s vfs c) ∙ old.0,
            law.select-remove_blob s b resources (by_data rt c) (Fits-data s resources c) ∙ old.1,
          );
    }
