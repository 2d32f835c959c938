-- ===== src/Push/Tests.antt =====
-- A push with one resource, through a server that puts the contact's key into the head.
use zway_lib.Base.{
  ℕ, suc, ◌≡◌, refl, true, none, some, [], ◌∷◌, arith, replicate, length-replicate, overwrite,
}
use zway_lib.Base.Int.{pos}
use zway_lib.Base.Text.{codes}
use zway_lib.Buffer.{of_bytes, create, write}
use zway_lib.Crypto.Aes.Toy.{toy_nettle, toy_nettle-IsCounterMode}
use zway_lib.Push.{
  Rsa, IsRandom, IsPair, Attachment, Message, Pushed, init_push, meta_with, with_ids, meta_entries,
  key_entry,
}
use zway_lib.Push.Open.{opened, open_push}
use zway_lib.Push.Opens.{IsForwarded, HasKey, HasSalt, push-opens}
use zway_lib.Push.Deliver.{opened_key, opened_salt, push-Arrives}
use zway_lib.Resources.Arrive.{Arrives}
use zway_lib.Resources.Link.{sender_of, accept_resource}
use zway_lib.Resources.Sender.{ResourceState, process_resource}
use zway_lib.Store.Memory.{memory_tables}
use zway_lib.Stream.Sender.{StreamSender, parts_of}
use zway_lib.Transfer.{exchange}
use zway_lib.Ubj.Fixture.{some_runtime}
use zway_lib.Ubj.Format.{Library}
use zway_lib.Ubj.Format.RoundTrip.{IsStorable, IsText, tree}
use zway_lib.Ubj.Key.{cmp}
use zway_lib.Ubj.Object.{find, at_key, has_field, value_at, value_at_key, set_field, get_item}
use zway_lib.Ubj.Object.Laws.{find-set_field, at_key-find}
use zway_lib.Ubj.Value.{Object, end, field, of_object, of_array, of_buffer, cons, nil}
use zway_lib.Ubj.Value.Convert.{of_string, of_uint}

-- The bytes of a draw are its number. A key is not hidden.
abbrev toy_rsa : Rsa
toy_rsa = record {
  State = ℕ;
  random = λ s n. (some (replicate n s), suc s);
  leftover = λ s. 0;
  encrypt = λ s o b. (some b, s);
  decrypt = λ o b. some b;
}

toy_rsa-IsRandom : IsRandom toy_rsa
toy_rsa-IsRandom = record { draws = λ s n. (replicate n s, refl, length-replicate {A = ℕ} n s) }

toy_rsa-IsPair : (public private : Object) → IsPair toy_rsa public private
toy_rsa-IsPair public private = record { encrypts = λ s b v size. (b, refl, refl) }

abbrev picture : Attachment
picture = record {
  resource = record { resource_id = 7; m_data = some (of_bytes (1 ∷ 2 ∷ 3 ∷ [])) };
  name = codes "a";
  hash = codes "b";
  m_parts = 1;
}

abbrev hello : Message
hello = record {
  src = 1;
  dst = 2;
  history = 3;
  text = codes "hi";
  meta = field (codes "text") (of_string some_runtime (codes "hi")) end;
  m_resources = picture ∷ [];
}

abbrev friend : Object
friend = field (codes "publicKey") (of_object end) end

-- Any list of calls is one byte, and any byte reads as the tree of the message's meta data.
abbrev one_tree : Library
one_tree = record {
  written = λ l. 1 ∷ [];
  read_dynamic =
      λ l. tree some_runtime (of_object (meta_with some_runtime hello.meta (picture ∷ [])));
}

abbrev forward : Object → Object
forward h =
    set_field (codes "key") (value_at_key (codes "key") (value_at 0 (at_key (codes "keys") h))) h

forward-IsForwarded : (h : Object) → IsForwarded some_runtime h 2 (forward h)
unfolding cmp find at_key value_at value_at_key set_field get_item of_buffer
forward-IsForwarded h = record {
  same_salt = find-set_field (codes "key") (codes "salt") _ h;
  same_meta = find-set_field (codes "key") (codes "meta") _ h;
  own_key = λ e found. rw (
    find-set_field (codes "key") (codes "key"),
    at_key-find (codes "keys") h (of_array (cons (of_object (key_entry some_runtime 2 e)) nil))
        found,
  );
}

-- The keys of the fields.
hash-IsText : IsText (codes "hash")
hash-IsText = (omega arith, (omega arith, (omega arith, (omega arith, tt))))

id-IsText : IsText (codes "id")
id-IsText = (omega arith, (omega arith, tt))

name-IsText : IsText (codes "name")
name-IsText = (omega arith, (omega arith, (omega arith, (omega arith, tt))))

size-IsText : IsText (codes "size")
size-IsText = (omega arith, (omega arith, (omega arith, (omega arith, tt))))

body-IsText : IsText (codes "text")
body-IsText = (omega arith, (omega arith, (omega arith, (omega arith, tt))))

resources-IsText : IsText (codes "resources")
resources-IsText = (
  omega arith,
  (
    omega arith,
    (
      omega arith,
      (omega arith, (omega arith, (omega arith, (omega arith, (omega arith, (omega arith, tt)))))),
    ),
  ),
)

meta-IsStorable : IsStorable (of_object (meta_with some_runtime hello.meta (picture ∷ [])))
unfolding cmp set_field meta_entries of_string of_uint create write overwrite replicate
meta-IsStorable = (
  refl,
  ((refl, tt), (tt, tt)),
  (
    resources-IsText,
    (
      refl,
      (
        (
          refl,
          ((refl, (refl, (refl, tt))), ((refl, (refl, tt)), ((refl, tt), (tt, tt)))),
          (
            hash-IsText,
            (codes "b", (omega arith, tt), refl),
            (
              id-IsText,
              (pos 7, omega arith, refl),
              (
                name-IsText,
                (codes "a", (omega arith, tt), refl),
                (size-IsText, (pos 3, omega arith, refl), tt),
              ),
            ),
          ),
        ),
        tt,
      ),
    ),
    (body-IsText, (codes "hi", (omega arith, (omega arith, tt)), refl), tt),
  ),
)

push-opens_example :
    (p : Pushed) × ((init_push some_runtime one_tree toy_nettle
        (0, 0)
        toy_rsa
        (λ n. some friend)
        memory_tables
        9
        end
        hello
        5
        ([], [])).0
      ≡ some p)
    × HasKey p
    × HasSalt p
    × (open_push some_runtime one_tree toy_nettle (3, 8) toy_rsa end (forward p.m_head)
        ≡ opened p.m_key p.m_salt p.meta_data)
unfolding has_field find cmp with_ids
push-opens_example =
    push-opens some_runtime one_tree toy_nettle toy_nettle-IsCounterMode (0, 0) (3, 8) toy_rsa
      toy_rsa-IsRandom (λ n. some friend) end friend hello memory_tables forward 9 end 5 ([], [])
      (λ n. refl) refl refl (toy_rsa-IsPair _ _) forward-IsForwarded
      (λ e. absurd (omega (arith, e))) (λ s. meta-IsStorable) (λ s. (omega arith, refl))

push-Arrives_example :
    (p : Pushed) × ((init_push some_runtime one_tree toy_nettle
        (0, 0)
        toy_rsa
        (λ n. some friend)
        memory_tables
        9
        end
        hello
        5
        ([], [])).0
      ≡ some p)
    × (let request =
          open_push some_runtime one_tree toy_nettle (3, 8) toy_rsa end (forward p.m_head) in
        (x : ResourceState toy_nettle) × (z : StreamSender) × (sender_of toy_nettle
            some_runtime.malloc
            (1, 4)
            (record { resource_id = 7; m_data = some (of_bytes (1 ∷ 2 ∷ 3 ∷ [])) })
            (some p.m_key)
            (some p.m_salt)
            true
          ≡ some (some (x, z)))
        × Arrives toy_nettle (1 ∷ 2 ∷ 3 ∷ []) true (
            exchange some_runtime.malloc
              (λ x' z'. process_resource toy_nettle some_runtime.malloc x' z')
              (λ r' p'.
                accept_resource toy_nettle some_runtime.malloc
                  (9, 2)
                  (opened_key request)
                  (opened_salt request)
                  true
                  r'
                  p')
              1
              x
              z
              none))
unfolding has_field find cmp with_ids parts_of
push-Arrives_example =
    push-Arrives some_runtime one_tree toy_nettle toy_nettle-IsCounterMode (0, 0) (3, 8) (1, 4)
      (9, 2) toy_rsa toy_rsa-IsRandom (λ n. some friend) end friend hello memory_tables forward 9
      end 5 ([], []) 7 (of_bytes (1 ∷ 2 ∷ 3 ∷ [])) (1 ∷ 2 ∷ 3 ∷ []) true 1 (λ n. refl) refl refl
      (toy_rsa-IsPair _ _) forward-IsForwarded (λ e. absurd (omega (arith, e)))
      (λ s. meta-IsStorable) (λ s. (omega arith, refl)) (omega arith) refl refl (omega arith)
      (omega arith) (omega arith)
