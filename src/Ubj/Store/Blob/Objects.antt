-- ===== src/Ubj/Store/Blob/Objects.antt =====
-- Objects as blobs: `createBlob`, `updateBlobData` and `getBlobData` of src/ubj/store/store.cpp for an
-- object.
use mathlib.Core.Logic.{◌≢◌}
use zway_lib.Base.{ℕ, ◌≡◌, ◌<◌, refl, sym, ◌∙◌, ap, Bool, true, Option, none, some, inl, length}
use zway_lib.Buffer.{MemoryBuffer, bytes, of_bytes}
use zway_lib.Ubj.Key.{Key}
use zway_lib.Ubj.Value.{Runtime, Value, Object, of_object, null, to_object}
use zway_lib.Ubj.Value.Convert.{two32}
use zway_lib.Ubj.Format.{Library}
use zway_lib.Ubj.Format.Writer.{write, top_calls}
use zway_lib.Ubj.Format.Reader.{read}
use zway_lib.Ubj.Format.RoundTrip.{IsStorable, tree}
use zway_lib.Ubj.Format.RoundTrip.Whole.{Keeps, top_calls_lem, read-write_value}
use zway_lib.Ubj.Format.RoundTrip.Calls.{value_calls-tree}
use zway_lib.Ubj.Format.RoundTrip.Values.{block_lem}
use zway_lib.Crypto.Aes.{Nettle, IsCounterMode}
use zway_lib.Ubj.Store.Blob.{Database, IsKept}
use zway_lib.Ubj.Store.Blob.Calls.{first_row, update_blob_data, create_blob, get_blob_data}
use zway_lib.Ubj.Store.Blob.Kept.{IsDrawn, get_blob_data-create_blob}

module _ (rt : Runtime) (lib : Library) (N : Nettle) (D : Database) (fresh : N.Context)
    (m_key : Option MemoryBuffer) where
  abbrev created : D.State → Key → Bool → Option MemoryBuffer → ℕ × D.State
  created s t encrypt none = (0, s)
  created s t encrypt (some b) = create_blob N D rt.malloc fresh m_key s t (some b) encrypt

  unfoldable pub create_object : D.State → Key → Object → Bool → ℕ × D.State
  create_object s t o encrypt = created s t encrypt (write rt lib (of_object o))

  abbrev updated : D.State → Key → ℕ → Bool → Option MemoryBuffer → ℕ × D.State
  updated s t id encrypt none = (0, s)
  updated s t id encrypt (some b) =
      update_blob_data N D rt.malloc fresh m_key s t id (some b) encrypt

  unfoldable pub update_object : D.State → Key → ℕ → Object → Bool → ℕ × D.State
  update_object s t id o encrypt = updated s t id encrypt (write rt lib (of_object o))

  abbrev object_of : Option Value → Option Object
  object_of none = none
  object_of (some v) = some (to_object v)

  abbrev parsed : Option MemoryBuffer → Option Object
  parsed none = none
  parsed (some b) = object_of (read rt lib null (bytes b))

  unfoldable pub get_object : D.State → Key → ℕ → Option Object
  get_object s t id = parsed (get_blob_data N D rt.malloc fresh m_key s t id)

  abbrev pub written_bytes : Object → MemoryBuffer
  written_bytes o = of_bytes (lib.written (top_calls rt (of_object o)))

  module _ (law : IsCounterMode N) (kept : IsKept D) (memory : (n : ℕ) → rt.malloc n ≡ true)
      (drawn : IsDrawn N law D kept rt.malloc memory fresh m_key) where
    write_lem : (o : Object) → write rt lib (of_object o) ≡ some (written_bytes o)
    unfolding write
    write_lem o = block_lem rt memory (lib.written (top_calls rt (of_object o)))

    parsed_lem :
        (o : Object)
        → IsStorable (of_object o)
        → Keeps lib (tree rt (of_object o))
        → parsed (some (written_bytes o)) ≡ some o
    unfolding to_object
    parsed_lem o one keeps =
        let r = read-write_value rt lib (of_object o) memory one (inl refl) keeps in
        ap parsed (sym (write_lem o) ∙ r.1) ∙ ap object_of r.2

    -- While memory and random bytes last, and if the row is inserted under an id of 32 bits: a storable
    -- object, from a library that gives back the tree it was told to write, is what getBlobData reads
    -- from the blob that createBlob made of it, encrypted or not.
    pub get_object-create_object :
        (s : D.State) (t : Key) (o : Object) (mode : Bool)
        → IsStorable (of_object o)
        → Keeps lib (tree rt (of_object o))
        → (D.insert s t (first_row (some (written_bytes o)) mode)).0 ≢ 0
        → (D.insert s t (first_row (some (written_bytes o)) mode)).0 < two32
        → ((create_object s t o mode).0
            ≡ (D.insert s t (first_row (some (written_bytes o)) mode)).0)
          × (get_object
                (create_object s t o mode).1
                t
                (D.insert s t (first_row (some (written_bytes o)) mode)).0
              ≡ some o)
    unfolding create_object get_object
    get_object-create_object s t o mode one keeps n l =
        let id = (D.insert s t (first_row (some (written_bytes o)) mode)).0 in
        let p = lib.written (top_calls rt (of_object o)) in
        let full : 0 < length p =
          rw (top_calls_lem rt (of_object o) (inl refl), value_calls-tree rt (of_object o) one)
            (keeps.0) in
        let r =
          get_blob_data-create_blob N law D kept rt.malloc memory fresh m_key drawn s t p mode full
            n l in
        let w = ap (created s t mode) (write_lem o) in
        (
          ap (λ x. x.0) w ∙ r.0,
          ap (λ x. parsed (get_blob_data N D rt.malloc fresh m_key x.1 t id)) w
              ∙ ap parsed r.1
              ∙ parsed_lem o one keeps,
        )
