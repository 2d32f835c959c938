-- ===== src/Incoming.antt =====
-- The requests of the server that `Client::processIncomingRequest` of src/client.cpp answers, over the tables of
-- the store.
pub mod Messages
pub mod Answers
mod Tests
use zway_lib.Base.{
  ℕ, Bool, true, false, not, ◌||◌, Option, none, some, List, [], ◌∷◌, ◌==◌, if◌then◌else◌,
}
use zway_lib.Base.Text.{codes}
use zway_lib.Store.{Tables, resources, messages, contacts, by_id, int_at, count}
use zway_lib.Ubj.Key.{Key}
use zway_lib.Ubj.Object.{set_field, has_field, at_key, value_at_key}
use zway_lib.Ubj.Value.{Runtime, Value, Object, end, field, Array, nil, cons, to_array}
use zway_lib.Ubj.Value.Convert.{of_uint, of_ulong, to_uint}

-- What a handler posts for the client's user.
pub data Event : Type 0 where
  contact_request contact_accepted contact_rejected contact_status : Event
  resource_delivered message_delivered message_incoming message_received : Event

-- An answer to the server: the request's id, whether it is a success, and the ids of the resources to send.
abbrev pub Answer : Type 0
Answer = ℕ × Bool × List Value

-- The answers, newest first, and for which of them memory lasts to make a sender.
pub record Outbox : Type 0 where
  pub makes : Answer → Bool
  pub sent : List Answer

-- `addUbjSender` and `addStreamSender`: without a sender, or with an id of 0, nothing is sent.
unfoldable pub add_ubj_sender : Answer → Outbox → Outbox
add_ubj_sender (id, success, ids) o =
    if (id == 0) || not (o.makes (id, success, ids))
    then o
    else record o { sent = (id, success, ids) ∷ o.sent }

-- The tables; the answers; the events, newest first; and what is known of the contacts.
pub record World (S : Tables) : Type 0 where
  pub tables : S.State
  pub answers : Outbox
  pub events : List Event
  pub statuses : List (ℕ × ℕ)

abbrev pub contact_requests : Key
contact_requests = codes "contact_requests"

abbrev pub accept_contact : ℕ
accept_contact = 3400

abbrev pub reject_contact : ℕ
reject_contact = 3500

-- `Resource::Receipted`, `Resource::Delivered` and `Message::Delivered`.
abbrev pub receipted : ℕ
receipted = 6

abbrev pub delivered : ℕ
delivered = 5

module _ {S : Tables} where
  -- `postRequestSuccess`, `postRequestFailure` and `postEvent`. The handlers do not look at whether the
  -- answer was sent.
  abbrev pub succeed : ℕ → List Value → World S → Bool × World S
  succeed id ids w = (true, record w { answers = add_ubj_sender (id, true, ids) w.answers })

  abbrev pub fail : ℕ → World S → Bool × World S
  fail id w = (false, record w { answers = add_ubj_sender (id, false, []) w.answers })

  abbrev pub raise : Event → World S → World S
  raise e w = record w { events = e ∷ w.events }

-- `(*m_contactStatus)[id] = status`
unfoldable pub put_status : ℕ → ℕ → List (ℕ × ℕ) → List (ℕ × ℕ)
put_status id status [] = (id, status) ∷ []
put_status id status ((j, s) ∷ l) =
    let rest = put_status id status l in if id == j then (j, status) ∷ l else (j, s) ∷ rest

-- `Client::processContactStatus`.
module _ (rt : Runtime) (S : Tables) where
  unfoldable pub put_statuses : Array → List (ℕ × ℕ) → List (ℕ × ℕ)
  unfolding put_status
  put_statuses nil l = l
  put_statuses (cons v a) l = put_statuses a (
      put_status (to_uint rt (value_at_key (codes "contactId") v))
        (to_uint rt (value_at_key (codes "status") v)) l)

  unfoldable pub process_contact_status : World S → Object → Bool × World S
  unfolding put_statuses
  process_contact_status w request = (
    true,
    raise contact_status (record w {
      statuses = put_statuses (to_array (at_key (codes "contactStatus") request)) w.statuses;
    }),
  )

-- `now` is the time, `account` the own id, and `color` what `randomColor` gives.
module _ (rt : Runtime) (S : Tables) (now account : ℕ) (color : Value) where
  abbrev pub found : S.State → Key → Object → Option Object
  found s t w = elim (S.select s t w) [ [] ↦ none | r ∷ rs ↦ some r ]

  abbrev pub with_color : Object → Object
  with_color o = if has_field (codes "color") o then o else set_field (codes "color") color o

  abbrev pub request_row : Object → Object
  request_row request = set_field (codes "addCode") (at_key (codes "addCode") request) (
      set_field (codes "phone") (at_key (codes "phone") request) (
        set_field (codes "name") (at_key (codes "name") request) (
          set_field (codes "dst") (of_uint rt account) (
            set_field (codes "time") (of_ulong rt now)
              (set_field (codes "id") (at_key (codes "requestId") request) end)))))

  abbrev pub without_code : S.State → Object → S.State
  without_code s request =
      if has_field (codes "addCode") request
      then (S.remove s (codes "add_codes")
          (field (codes "addCode") (at_key (codes "addCode") request) end)).1
      else s

  abbrev pub noted : ℕ → World S → ℕ × S.State → Bool × World S
  noted id w (n, s) =
      if n == 0
      then (false, record w { tables = s })
      else succeed id [] (raise contact_request (record w { tables = s }))

  abbrev pub asked : ℕ → Object → World S → Option Object → Bool × World S
  asked id request w (some r) = succeed id [] (raise contact_request w)
  asked id request w none =
      noted id w (
        S.insert (without_code w.tables request) contact_requests
          (with_color (request_row request)))

  unfoldable pub process_contact_request : World S → Object → Bool × World S
  process_contact_request w request =
      let id = int_at rt (codes "requestId") request in
      asked id request w (found w.tables contact_requests (by_id rt (codes "id") id))

  abbrev resolved : S.State → ℕ → ℕ → S.State
  resolved s result id =
      (S.update s contact_requests (field (codes "result") (of_uint rt result) end)
        (by_id rt (codes "id") id)).1

  abbrev pub contact_row : Object → Object → Object
  contact_row request r = set_field (codes "color") (at_key (codes "color") r) (
      set_field (codes "publicKey") (at_key (codes "publicKey") request) (
        set_field (codes "phone") (at_key (codes "phone") request) (
          set_field (codes "name") (at_key (codes "name") request)
            (set_field (codes "id") (at_key (codes "contactId") request) end))))

  abbrev pub accepted : ℕ → ℕ → Object → World S → Option Object → Bool × World S
  accepted id contact_id request w none = fail id w
  accepted id contact_id request w (some r) =
      let s = resolved w.tables accept_contact contact_id in
      succeed id [] (
        raise contact_accepted (record w {
          tables = (S.insert s contacts (with_color (contact_row request r))).1;
          statuses =
              put_status (int_at rt (codes "contactId") request)
                (int_at rt (codes "contactStatus") request) w.statuses;
        }))

  unfoldable pub process_contact_accepted : World S → Object → Bool × World S
  process_contact_accepted w request =
      let id = int_at rt (codes "contactRequestId") request in
      accepted (int_at rt (codes "requestId") request) id request w
        (found w.tables contact_requests (by_id rt (codes "id") id))

  abbrev pub rejected : ℕ → ℕ → World S → Option Object → Bool × World S
  rejected id contact_id w none = fail id w
  rejected id contact_id w (some r) =
      succeed id []
        (raise contact_rejected (record w { tables = resolved w.tables reject_contact contact_id }))

  unfoldable pub process_contact_rejected : World S → Object → Bool × World S
  process_contact_rejected w request =
      let id = int_at rt (codes "contactRequestId") request in
      rejected (int_at rt (codes "requestId") request) id w
        (found w.tables contact_requests (by_id rt (codes "id") id))

  abbrev now_delivered : Object
  now_delivered =
      set_field (codes "time") (of_ulong rt now)
        (set_field (codes "status") (of_uint rt delivered) end)

  abbrev by_request : ℕ → Object
  by_request id = field (codes "request") (of_uint rt id) end

  abbrev or_empty : Option Object → Object
  or_empty none = end
  or_empty (some r) = r

  -- Whether all resources of a message are delivered.
  abbrev pub all_delivered : S.State → ℕ → Bool
  all_delivered s message =
      count rt S s resources
        (set_field (codes "status") (of_uint rt delivered) (by_request message))
      == count rt S s resources (by_request message)

  abbrev pub receipt : World S → ℕ → World S
  receipt w id =
      let s = (S.update w.tables resources now_delivered (by_id rt (codes "id") id)).1 in
      let resource = or_empty (found s resources (by_id rt (codes "id") id)) in
      let message = int_at rt (codes "request") resource in
      if all_delivered s message
      then raise message_delivered (
          raise resource_delivered (record w {
            tables = (S.update s messages now_delivered (by_id rt (codes "id") message)).1;
          }))
      else raise resource_delivered (record w { tables = s })

  unfoldable pub process_dispatch_request : World S → Object → Bool × World S
  process_dispatch_request w request = succeed (int_at rt (codes "requestId") request) [] (
      if int_at rt (codes "dispatchType") request == receipted
      then receipt w (int_at rt (codes "dispatchId") request)
      else w)
