-- ===== src/Incoming/Messages.antt =====
-- The second half of `Client::processPush`, and `Client::processMessage`, of src/client.cpp: what is stored of a
-- push.
use zway_lib.Base.{
  ℕ, Bool, true, false, not, ◌&&◌, ◌%◌, Option, none, some, List, [], ◌∷◌, ◌==◌, if◌then◌else◌,
}
use zway_lib.Base.Text.{codes}
use zway_lib.Buffer.{MemoryBuffer}
use zway_lib.Crypto.Aes.{Nettle}
use zway_lib.Incoming.{
  World, message_incoming, message_received, succeed, fail, accept_contact, reject_contact,
  process_dispatch_request, process_contact_request, process_contact_accepted,
  process_contact_rejected, process_contact_status, raise,
}
use zway_lib.Push.{Rsa}
use zway_lib.Push.Open.{Opened, ignored, faulted, failed, opened, open_push}
use zway_lib.Store.{Tables, resources, messages, histories, by_id, int_at, count}
use zway_lib.Ubj.Format.{Library}
use zway_lib.Ubj.Key.{Key}
use zway_lib.Ubj.Object.{set_field, has_field, at_key, num_items, value_at_key}
use zway_lib.Ubj.Value.{
  Runtime, Value, Object, end, field, Array, nil, cons, of_object, of_buffer, to_array,
}
use zway_lib.Ubj.Value.Convert.{of_uint, of_ulong, to_str, two32}

-- `Message::Incoming` and `Message::Received`.
abbrev incoming : ℕ
incoming = 1

abbrev received : ℕ
received = 4

abbrev pub requests : Key
requests = codes "requests"

-- `newest` is the rowid of the newest history with a contact, if there is one, as `toInt` reads it.
module _ (rt : Runtime) (S : Tables) (now account : ℕ) (newest : S.State → ℕ → Option ℕ) where
  -- `Store::latestHistory`, which makes a history if there is none.
  unfoldable pub latest_history : S.State → ℕ → ℕ × S.State
  latest_history s contact = elim (newest s contact) [
    | some history ↦ (history, s)
    | none ↦
        let r = S.insert s histories (
          set_field (codes "time") (of_ulong rt now)
            (set_field (codes "dst") (of_uint rt contact) end)) in
        (r.0 % two32, r.1)
  ]

  abbrev pub incoming_row : Object → Object → ℕ → ℕ → Object
  incoming_row request meta history number = set_field (codes "text") (at_key (codes "text") meta) (
      set_field (codes "time") (of_ulong rt now) (
        set_field (codes "status") (of_uint rt (if number == 0 then received else incoming)) (
          set_field (codes "history") (of_ulong rt history) (
            set_field (codes "dst") (of_uint rt account) (
              set_field (codes "src") (of_uint rt (int_at rt (codes "src") request))
                (set_field (codes "id") (at_key (codes "requestId") request) end))))))

  -- A row that is there already is left as it is. The first component is whether the row is there.
  abbrev pub stored_once : S.State → Key → Object → ℕ → Bool × S.State
  stored_once s t row n =
      if n == 0 then (let r = S.insert s t row in (not (r.0 == 0), r.1)) else (true, s)

  abbrev pub announced : ℕ → World S → Bool × S.State → Bool × World S
  announced number w (false, s) = (false, record w { tables = s })
  announced number w (true, s) =
      let w1 = raise message_incoming (record w { tables = s }) in
      (true, if number == 0 then raise message_received w1 else w1)

  abbrev pub placed : Object → Object → ℕ → World S → ℕ × S.State → Bool × World S
  placed request meta number w (history, s) =
      let by = field (codes "id") (at_key (codes "requestId") request) end in
      announced number w (
        stored_once s messages (incoming_row request meta history number)
          (count rt S s messages by))

  abbrev is_empty : List ℕ → Bool
  is_empty [] = true
  is_empty (c ∷ l) = false

  abbrev pub has_text : Object → Bool
  has_text meta =
      has_field (codes "text") meta && not (is_empty (to_str rt (at_key (codes "text") meta)))

  unfoldable pub process_message : World S → Object → Object → ℕ → Bool × World S
  unfolding latest_history
  process_message w request meta number =
      if has_text meta
      then placed request meta number w (latest_history w.tables (int_at rt (codes "src") request))
      else (true, w)

  abbrev pub resource_row : ℕ → Value → Object
  resource_row id v = set_field (codes "hash") (value_at_key (codes "hash") v) (
      set_field (codes "size") (value_at_key (codes "size") v) (
        set_field (codes "name") (value_at_key (codes "name") v) (
          set_field (codes "time") (of_uint rt 0) (
            set_field (codes "status") (of_uint rt 0) (
              set_field (codes "request") (of_uint rt id)
                (set_field (codes "id") (value_at_key (codes "id") v) end))))))

  abbrev pub with_id : Value → Option (List Value) × S.State → Option (List Value) × S.State
  with_id v (none, s) = (none, s)
  with_id v (some l, s) = (some (v ∷ l), s)

  abbrev pub if_stored :
      Bool × S.State → (S.State → Option (List Value) × S.State) → Option (List Value) × S.State
  if_stored (false, s) rest = (none, s)
  if_stored (true, s) rest = rest s

  -- The loop over the resources of the meta data: their ids, and `none` if a row cannot be inserted.
  unfoldable pub store_resources : ℕ → S.State → Array → Option (List Value) × S.State
  store_resources id s nil = (some [], s)
  store_resources id s (cons v a) =
      let by = field (codes "id") (value_at_key (codes "id") v) end in
      if_stored (stored_once s resources (resource_row id v) (count rt S s resources by))
        (λ s'. with_id (value_at_key (codes "id") v) (store_resources id s' a))

  abbrev pub push_row : ℕ → Object → MemoryBuffer → Object
  push_row id request key =
      let kept = set_field (codes "resources") (at_key (codes "resources") request) (
        set_field (codes "salt") (at_key (codes "salt") request)
          (set_field (codes "key") (of_buffer (some key)) end)) in
      set_field (codes "data") (of_object kept) (
        set_field (codes "type") (at_key (codes "type") request)
          (set_field (codes "id") (of_uint rt id) end))

  abbrev pub store_push :
      ℕ → Object → MemoryBuffer → Object → S.State → Option (List Value) × S.State
  store_push id request key meta s =
      if num_items (at_key (codes "resources") meta) == 0
      then (some [], s)
      else if_stored
          (stored_once s requests (push_row id request key)
            (count rt S s requests (by_id rt (codes "id") id)))
          (λ s'. store_resources id s' (to_array (at_key (codes "resources") meta)))

  abbrev pub told : ℕ → Object → Object → World S → Option (List Value) × S.State → Bool × World S
  told id request meta w (none, s) = fail id (record w { tables = s })
  told id request meta w (some ids, s) =
      succeed id ids
        (process_message (record w { tables = s }) request meta
          (num_items (at_key (codes "resources") meta))).1

  -- `none` is a request whose key is no buffer.
  abbrev pub push_handled : World S → Object → Opened → Option (Bool × World S)
  push_handled w request ignored = some (true, w)
  push_handled w request faulted = none
  push_handled w request failed = some (fail (int_at rt (codes "requestId") request) w)
  push_handled w request (opened key salt meta) =
      let id = int_at rt (codes "requestId") request in
      some (told id request meta w (store_push id request key meta w.tables))

  module _ (lib : Library) (N : Nettle) (fresh : N.Context) (R : Rsa) (private_key : Object) where
    unfoldable pub process_push : World S → Object → Option (Bool × World S)
    unfolding process_message store_resources
    process_push w request = push_handled w request (open_push rt lib N fresh R private_key request)

    -- The switch of `processIncomingRequest` over the kinds of request.
    unfoldable pub process_incoming_request : Value → World S → Object → Option (Bool × World S)
    process_incoming_request color w request =
        let type = int_at rt (codes "requestType") request in
        if type == 1100
        then some (process_dispatch_request rt S now account color w request)
        else if type == 3100
        then some (process_contact_request rt S now account color w request)
        else if type == accept_contact
        then some (process_contact_accepted rt S now account color w request)
        else if type == reject_contact
        then some (process_contact_rejected rt S now account color w request)
        else if type == 3600
        then some (process_contact_status rt S w request)
        else if type == 4100
        then process_push w request
        else some (false, w)
