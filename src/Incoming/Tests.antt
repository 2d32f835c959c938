-- ===== src/Incoming/Tests.antt =====
-- Requests over tables in memory.
use zway_lib.Base.{
  ℕ, ◌≡◌, refl, Bool, true, not, ◌||◌, ◌==◌, arith, none, some, [], ◌∷◌, if◌then◌else◌, overwrite,
  replicate,
}
use zway_lib.Base.Int.{pos}
use zway_lib.Base.Text.{codes}
use zway_lib.Buffer.{of_bytes, create, write}
use zway_lib.Crypto.Aes.{encrypt}
use zway_lib.Crypto.Aes.Toy.{toy_nettle, stream}
use zway_lib.Incoming.{
  World, found, contact_requests, process_contact_request, process_contact_accepted,
  process_contact_rejected, process_dispatch_request,
}
use zway_lib.Incoming.Messages.{process_push}
use zway_lib.Incoming.Answers.{
  request_id, named, row_inserted, is_some, contact-Answers, process_push-Answers,
}
use zway_lib.Push.{Rsa}
use zway_lib.Push.Open.{opened, open_push}
use zway_lib.Resources.{crypt_in_place}
use zway_lib.Store.{by_id, int_at}
use zway_lib.Store.Memory.{memory_tables}
use zway_lib.Ubj.Fixture.{some_runtime}
use zway_lib.Ubj.Format.{
  Library, Dynamic, object_dyn, array_dyn, string_dyn, int32_dyn, pair, no_pairs, item, no_items,
}
use zway_lib.Ubj.Format.Reader.{read, read_dynamic}
use zway_lib.Ubj.Key.{cmp}
use zway_lib.Ubj.Object.{find, has_field, at_key}
use zway_lib.Ubj.Value.{Object, end, field, null, of_buffer, to_object}
use zway_lib.Ubj.Value.Convert.{of_uint, to_uint}

abbrev nothing_yet : World memory_tables
nothing_yet = record {
  tables = ([], []);
  answers = record { makes = λ a. true; sent = [] };
  events = [];
  statuses = [];
}

abbrev plain_rsa : Rsa
plain_rsa = record {
  State = ℕ;
  random = λ s n. (some (replicate n s), s);
  leftover = λ s. 0;
  encrypt = λ s o b. (some b, s);
  decrypt = λ o b. some b;
}

-- A text and one resource.
abbrev meta_tree : Dynamic
meta_tree = object_dyn (
    pair (codes "resources")
      (array_dyn (item (object_dyn (pair (codes "id") (int32_dyn (pos 7)) no_pairs)) no_items))
      (pair (codes "text") (string_dyn (codes "hi")) no_pairs))

abbrev one_tree : Library
one_tree = record { written = λ l. 1 ∷ []; read_dynamic = λ l. meta_tree }

abbrev a_push : Object
a_push = field (codes "key") (of_buffer (some (of_bytes (1 ∷ 2 ∷ [])))) (
    field (codes "meta") (of_buffer (some (of_bytes (9 ∷ [])))) (
      field (codes "requestId") (of_uint some_runtime 5)
        (field (codes "salt") (of_buffer (some (of_bytes (3 ∷ [])))) end)))

abbrev got : Object
got = to_object (read_dynamic some_runtime meta_tree null)

opens :
    open_push some_runtime one_tree toy_nettle (0, 0) plain_rsa end a_push
    ≡ opened (of_bytes (1 ∷ 2 ∷ [])) (of_bytes (3 ∷ [])) got
unfolding open_push has_field at_key find cmp of_buffer crypt_in_place encrypt read stream overwrite
opens = refl

has_request_id : request_id some_runtime memory_tables 1 2 a_push ≡ 5
unfolding to_uint of_uint at_key find cmp create write overwrite replicate
has_request_id = refl

process_push-Answers_example :
    (r : Bool × World memory_tables) × (process_push some_runtime memory_tables 1 2
        (λ s n. none)
        one_tree
        toy_nettle
        (0, 0)
        plain_rsa
        end
        nothing_yet
        a_push
      ≡ some r)
    × (r.1.answers.sent
        ≡ (
          request_id some_runtime memory_tables 1 2 a_push,
          r.0,
          if r.0 then named some_runtime memory_tables 1 2 (λ s n. none) got else [],
        )
          ∷ [])
process_push-Answers_example =
    process_push-Answers some_runtime memory_tables 1 2 (λ s n. none) one_tree toy_nettle (0, 0)
      plain_rsa end nothing_yet a_push (of_bytes (1 ∷ 2 ∷ [])) (of_bytes (3 ∷ [])) got opens
      (λ e. absurd (omega (arith, e, has_request_id))) (λ a. refl)

contact-Answers_example :
    let w = nothing_yet in
    let r = process_contact_request some_runtime memory_tables 1 2 null w a_push in
    let a = process_contact_accepted some_runtime memory_tables 1 2 null w a_push in
    let b = process_contact_rejected some_runtime memory_tables 1 2 null w a_push in
    let d = process_dispatch_request some_runtime memory_tables 1 2 null w a_push in
    let id = request_id some_runtime memory_tables 1 2 a_push in
    let row = found some_runtime memory_tables 1 2 null ([], []) contact_requests in
    let asked_row = row (by_id some_runtime (codes "id") id) in
    let known_row =
      row
        (by_id some_runtime (codes "id") (int_at some_runtime (codes "contactRequestId") a_push)) in
    let added = row_inserted some_runtime memory_tables 1 2 null nothing_yet a_push in
    (r.0 ≡ (is_some asked_row || not (added == 0)))
    × (r.1.answers.sent ≡ (if r.0 then (id, true, []) ∷ [] else []))
    × (a.0 ≡ is_some known_row)
    × (a.1.answers.sent ≡ (id, a.0, []) ∷ [])
    × (b.0 ≡ is_some known_row)
    × (b.1.answers.sent ≡ (id, b.0, []) ∷ [])
    × (d.0 ≡ true)
    × (d.1.answers.sent ≡ (id, true, []) ∷ [])
contact-Answers_example =
    contact-Answers some_runtime memory_tables 1 2 null nothing_yet a_push
      (λ e. absurd (omega (arith, e, has_request_id))) (λ a. refl)
