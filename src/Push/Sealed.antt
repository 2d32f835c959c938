-- ===== src/Push/Sealed.antt =====
-- What `PushRequest::init` (src/request/pushrequest.cpp) makes while nothing fails, and what the first half of
-- `Client::processPush` (src/client.cpp) reads of a request that has it.
use zway_lib.Base.{
  ℕ, ◌≡◌, ◌≢◌, if◌then◌else◌, ◌∙◌, ap, sym, refl, true, Option, none, some, List, inl, length,
  take-all, overwrite, overwrite_all, replicate, length-replicate, length-overwrite, arith, ◌==◌,
}
use zway_lib.Base.Text.{codes}
use zway_lib.Buffer.{MemoryBuffer, bytes, of_bytes}
use zway_lib.Buffer.Laws.{create_null}
use zway_lib.Crypto.Aes.{Nettle, IsCounterMode}
use zway_lib.Push.{
  Rsa, IsRandom, IsPair, Message, Attachment, Pushed, message_context, key_entry, key_entries,
  meta_with, prepare_push, init_push, message_row, random_buffer, id_or_new, seal, with_ids,
  head_of,
}
use zway_lib.Push.Open.{opened, open_push}
use zway_lib.Resources.{crypt_in_place}
use zway_lib.Resources.Cipher.{crypt_in_place_lem}
use zway_lib.Store.{Tables, messages}
use zway_lib.Ubj.Format.{Library}
use zway_lib.Ubj.Format.Writer.{write, top_calls}
use zway_lib.Ubj.Format.Reader.{read}
use zway_lib.Ubj.Format.RoundTrip.{IsStorable, tree}
use zway_lib.Ubj.Format.RoundTrip.Whole.{Keeps, read-write_value}
use zway_lib.Ubj.Format.RoundTrip.Values.{block_lem}
use zway_lib.Ubj.Object.{find, has_field, at_key}
use zway_lib.Ubj.Object.Laws.{has_field-find, at_key-find}
use zway_lib.Ubj.Value.{
  Runtime, Value, Object, Array, nil, cons, of_object, of_buffer, null, to_object,
}

kept_if : (n : ℕ) → n ≢ 0 → (p : Pushed) → (if n == 0 then none else some p) ≡ some p
kept_if n h p = ground (arith, h)

module _ (rt : Runtime) (lib : Library) (N : Nettle) (law : IsCounterMode N) (fresh : N.Context)
    (memory : (n : ℕ) → rt.malloc n ≡ true) where
  -- The bytes of the meta data, and what they become.
  abbrev pub plain : Object → List ℕ
  plain meta = lib.written (top_calls rt (of_object meta))

  abbrev pub hidden : MemoryBuffer → MemoryBuffer → Object → List ℕ
  hidden key salt meta = (N.ctr_crypt (message_context N fresh key salt) (plain meta)).0

  write_lem : (meta : Object) → write rt lib (of_object meta) ≡ some (of_bytes (plain meta))
  unfolding write
  write_lem meta = block_lem rt memory (plain meta)

  crypt_all :
      (c : N.Context) (l : List ℕ) (m : ℕ)
      → length l ≡ m
      → crypt_in_place N rt.malloc c (record { m_data = some l; m_size = m }) m
        ≡ (true, (N.ctr_crypt c l).1, record { m_data = some (N.ctr_crypt c l).0; m_size = m })
  crypt_all c l m e =
      rw (crypt_in_place_lem N law rt.malloc c l m m (memory 1024), take-all m l (omega arith))
        (ap (λ z. (true, (N.ctr_crypt c l).1, record { m_data = some z; m_size = m }))
          (overwrite_all l (N.ctr_crypt c l).0 (law.length-crypt c l)))

  abbrev read_of : Option MemoryBuffer → Option Value
  read_of none = none
  read_of (some b) = read rt lib null (bytes b)

  read_lem :
      (meta : Object)
      → IsStorable (of_object meta)
      → Keeps lib (tree rt (of_object meta))
      → read rt lib null (plain meta) ≡ some (of_object meta)
  read_lem meta one keeps =
      let r = read-write_value rt lib (of_object meta) memory one (inl refl) keeps in
      ap read_of (sym (write_lem meta) ∙ r.1) ∙ r.2

  module _ (R : Rsa) (drawn : IsRandom R) (contact : ℕ → Option Object) where
    abbrev pub drawn_bytes : R.State → ℕ → List ℕ
    drawn_bytes s n = (drawn.draws s n).0

    -- The first `n` bytes are random, the others 0.
    abbrev pub filled : R.State → ℕ → ℕ → MemoryBuffer
    filled s size n = of_bytes (overwrite (replicate size 0) 0 (drawn_bytes s n))

    pub length-filled :
        (s : R.State) (size n : ℕ)
        → length (overwrite (replicate size 0) 0 (drawn_bytes s n)) ≡ size
    length-filled s size n =
        length-overwrite (replicate size 0) 0 (drawn_bytes s n) ∙ length-replicate {A = ℕ} size 0

    random_buffer_lem :
        (s : R.State) (size n : ℕ)
        → random_buffer R rt.malloc size n s ≡ (some (filled s size n), (R.random s n).1)
    unfolding random_buffer overwrite
    random_buffer_lem s size n =
        rw (random_buffer, create_null rt.malloc size (memory size), (drawn.draws s n).1)
          (λ i. (
            some (record {
              m_data = some (overwrite (replicate size 0) 0 (drawn_bytes s n));
              m_size = sym (length-overwrite (replicate size 0) 0 (drawn_bytes s n)) i;
            }),
            (R.random s n).1,
          ))

    seal_lem :
        (id : ℕ) (head : Object) (key salt : MemoryBuffer) (keys : Array) (l : List Attachment)
        (meta : Object)
        → seal rt lib N fresh R contact id head key salt keys l meta
          ≡ some (record {
            m_id = id;
            m_key = key;
            m_salt = salt;
            m_head =
                head_of rt lib N fresh R contact head salt l keys
                  (record { m_data = some (hidden key salt meta); m_size = length (plain meta) });
            attached = l;
            meta_data = meta;
          })
    unfolding seal
    seal_lem id head key salt keys l meta = rw (
      seal,
      write_lem meta,
      crypt_all (message_context N fresh key salt) (plain meta) (length (plain meta)) refl,
    )

    module _ (private c : Object) (m : Message) (known : contact m.dst ≡ some c)
        (has_key : has_field (codes "publicKey") c ≡ true)
        (pair : IsPair R (to_object (at_key (codes "publicKey") c)) private) where
      abbrev pub public : Object
      public = to_object (at_key (codes "publicKey") c)

      -- What is drawn from the state behind the id.
      abbrev pub new_key : R.State → MemoryBuffer
      new_key s = filled s 32 32

      abbrev pub new_salt : R.State → MemoryBuffer
      new_salt s = filled (R.random s 32).1 16 12

      abbrev pub salted_state : R.State → R.State
      salted_state s = (R.random (R.random s 32).1 12).1

      abbrev pub sealed_key :
          (s : R.State)
          → (e : MemoryBuffer) × ((R.encrypt (salted_state s) public (new_key s)).0 ≡ some e)
            × (R.decrypt private e ≡ some (new_key s))
      sealed_key s = pair.encrypts (salted_state s) (new_key s) refl (length-filled s 32 32)

      abbrev pub given : R.State → List Attachment
      given s = (with_ids R (R.encrypt (salted_state s) public (new_key s)).1 m.m_resources).0

      abbrev pub meta_of : List Attachment → Object
      meta_of l = meta_with rt m.meta l

      abbrev pub pushed : ℕ → Object → R.State → Pushed
      pushed id head s = record {
        m_id = id;
        m_key = new_key s;
        m_salt = new_salt s;
        m_head =
            head_of rt lib N fresh R contact head (new_salt s) (given s)
              (cons (of_object (key_entry rt m.dst (sealed_key s).0)) nil)
              (record {
                m_data = some (hidden (new_key s) (new_salt s) (meta_of (given s)));
                m_size = length (plain (meta_of (given s)));
              });
        attached = given s;
        meta_data = meta_of (given s);
      }

      key_entries_lem :
          (s : R.State)
          → key_entries rt lib N fresh R contact m.dst (new_key s) (salted_state s) ≡ (
            some (cons (of_object (key_entry rt m.dst (sealed_key s).0)) nil),
            (R.encrypt (salted_state s) public (new_key s)).1,
          )
      unfolding key_entries
      key_entries_lem s = rw (key_entries, known, has_key, (sealed_key s).1)

      prepare_push_lem :
          (id : ℕ) (head : Object) (s : R.State)
          → (prepare_push rt lib N fresh R contact id head m s).0
            ≡ some (pushed (id_or_new R id s).0 head (id_or_new R id s).1)
      unfolding prepare_push
      prepare_push_lem id head s =
          rw
            (
              prepare_push,
              random_buffer_lem (id_or_new R id s).1 32 32,
              random_buffer_lem (R.random (id_or_new R id s).1 32).1 16 12,
              key_entries_lem (id_or_new R id s).1,
            )
            (seal_lem (id_or_new R id s).0 head (new_key (id_or_new R id s).1)
              (new_salt (id_or_new R id s).1)
              (cons (of_object (key_entry rt m.dst (sealed_key (id_or_new R id s).1).0)) nil)
              (given (id_or_new R id s).1) (meta_of (given (id_or_new R id s).1)))

      pub init_push_lem :
          (S : Tables) (id : ℕ) (head : Object) (s : R.State) (t : S.State)
          → (S.insert t messages (message_row rt (id_or_new R id s).0 m)).0 ≢ 0
          → (init_push rt lib N fresh R contact S id head m s t).0
            ≡ some (pushed (id_or_new R id s).0 head (id_or_new R id s).1)
      unfolding init_push
      init_push_lem S id head s t stored =
          rw (init_push, prepare_push_lem id head s)
            (kept_if (S.insert t messages (message_row rt (id_or_new R id s).0 m)).0 stored _)

  -- A request with a key, a salt and meta data that belong together.
  pub open_push_lem :
      (other : N.Context) (R : Rsa) (private request : Object) (key salt e : MemoryBuffer)
      (meta : Object)
      → find (codes "key") request ≡ some (of_buffer (some e))
      → find (codes "salt") request ≡ some (of_buffer (some salt))
      → find (codes "meta") request
        ≡ some (
            of_buffer (
              some (record { m_data = some (hidden key salt meta); m_size = length (plain meta) })))
      → R.decrypt private e ≡ some key
      → message_context N other key salt ≡ message_context N fresh key salt
      → IsStorable (of_object meta)
      → Keeps lib (tree rt (of_object meta))
      → open_push rt lib N other R private request ≡ opened key salt meta
  unfolding open_push of_buffer to_object
  open_push_lem other R private request key salt e meta with_key with_salt with_meta opens same one
        keeps =
      rw (
        open_push,
        has_field-find (codes "key") request _ with_key,
        has_field-find (codes "salt") request _ with_salt,
        has_field-find (codes "meta") request _ with_meta,
        at_key-find (codes "key") request _ with_key,
        opens,
        at_key-find (codes "salt") request _ with_salt,
        at_key-find (codes "meta") request _ with_meta,
        same,
        crypt_all (message_context N fresh key salt) (hidden key salt meta) (length (plain meta))
            (law.length-crypt (message_context N fresh key salt) (plain meta)),
        law.crypt-crypt (message_context N fresh key salt) (plain meta),
        read_lem meta one keeps,
      )
