-- ===== src/Incoming/Answers.antt =====
-- How often, and how, the handlers of `Client::processIncomingRequest` (src/client.cpp) answer the server.
use zway_lib.Base.{
  ℕ, ◌≡◌, ◌≢◌, ◌∙◌, not, ◌||◌, refl, ap, ap₂, Bool, true, false, Option, none, some, List, [], ◌∷◌,
  ◌==◌, if◌then◌else◌, arith,
}
use zway_lib.Base.Text.{codes}
use zway_lib.Buffer.{MemoryBuffer}
use zway_lib.Crypto.Aes.{Nettle}
use zway_lib.Incoming.{
  World, Outbox, Answer, add_ubj_sender, contact_requests, without_code, with_color, request_row,
  process_contact_request, process_contact_accepted, process_contact_rejected,
  process_dispatch_request, asked, noted, accepted, rejected, receipt, found,
}
use zway_lib.Incoming.Messages.{
  process_message, process_push, store_resources, store_push, told, announced, placed, if_stored,
  with_id, latest_history, has_text, stored_once,
}
use zway_lib.Push.{Rsa}
use zway_lib.Push.Open.{opened, open_push}
use zway_lib.Store.{Tables, int_at, by_id}
use zway_lib.Ubj.Format.{Library}
use zway_lib.Ubj.Object.{at_key, num_items, value_at_key}
use zway_lib.Ubj.Value.{Runtime, Value, Object, Array, nil, cons, to_array}

abbrev sent_of : Outbox → List Answer
sent_of o = o.sent

abbrev pub is_some : Option Object → Bool
is_some none = false
is_some (some o) = true

add_ubj_sender_lem :
    (a : Answer) (o : Outbox) → a.0 ≢ 0 → o.makes a ≡ true → (add_ubj_sender a o).sent ≡ a ∷ o.sent
unfolding add_ubj_sender
add_ubj_sender_lem (id, success, ids) o h e = ground (arith, h, e)

sent_if :
    (b : Bool) (a : Answer) (o : Outbox)
    → a.0 ≢ 0
    → o.makes a ≡ true
    → sent_of (if b then add_ubj_sender a o else o) ≡ (if b then a ∷ o.sent else o.sent)
sent_if true a o h e = add_ubj_sender_lem a o h e
sent_if false a o h e = refl

if_answers :
    (S : Tables) (b : Bool) (x y : World S) (l : Outbox)
    → x.answers ≡ l
    → y.answers ≡ l
    → (if b then x else y).answers ≡ l
if_answers S true x y l e f = e
if_answers S false x y l e f = f

if_answers_of_pair :
    (S : Tables) (b : Bool) (x y : Bool × World S) (l : Outbox)
    → x.1.answers ≡ l
    → y.1.answers ≡ l
    → (if b then x else y).1.answers ≡ l
if_answers_of_pair S true x y l e f = e
if_answers_of_pair S false x y l e f = f

module _ (rt : Runtime) (S : Tables) (now account : ℕ) where
  abbrev pub request_id : Object → ℕ
  request_id request = int_at rt (codes "requestId") request

  module _ (color : Value) where
    noted-answers :
        (id : ℕ) (w : World S) (x : ℕ × S.State)
        → let r = noted rt S now account color id w x in
          r.1.answers ≡ (if r.0 then add_ubj_sender (id, true, []) w.answers else w.answers)
    noted-answers id w (n, s) = ground arith

    asked-answers :
        (id : ℕ) (request : Object) (w : World S) (x : Option Object)
        → let r = asked rt S now account color id request w x in
          r.1.answers ≡ (if r.0 then add_ubj_sender (id, true, []) w.answers else w.answers)
    asked-answers id request w none = noted-answers id w _
    asked-answers id request w (some o) = refl

    accepted-answers :
        (id contact : ℕ) (request : Object) (w : World S) (x : Option Object)
        → let r = accepted rt S now account color id contact request w x in
          r.1.answers ≡ add_ubj_sender (id, r.0, []) w.answers
    accepted-answers id contact request w none = refl
    accepted-answers id contact request w (some o) = refl

    rejected-answers :
        (id contact : ℕ) (w : World S) (x : Option Object)
        → let r = rejected rt S now account color id contact w x in
          r.1.answers ≡ add_ubj_sender (id, r.0, []) w.answers
    rejected-answers id contact w none = refl
    rejected-answers id contact w (some o) = refl

    receipt-answers :
        (w : World S) (id : ℕ) → (receipt rt S now account color w id).answers ≡ w.answers
    receipt-answers w id = if_answers S _ _ _ w.answers refl refl

    -- What the insertion of a contact request's row returns.
    abbrev pub row_inserted : World S → Object → ℕ
    row_inserted w request =
        (S.insert (without_code rt S now account color w.tables request) contact_requests
          (with_color rt S now account color (request_row rt S now account color request))).0

    asked-flag :
        (id : ℕ) (request : Object) (w : World S) (x : Option Object)
        → (asked rt S now account color id request w x).0
          ≡ (is_some x || not (row_inserted w request == 0))
    asked-flag id request w none = ground arith
    asked-flag id request w (some o) = refl

    accepted-flag :
        (id contact : ℕ) (request : Object) (w : World S) (x : Option Object)
        → (accepted rt S now account color id contact request w x).0 ≡ is_some x
    accepted-flag id contact request w none = refl
    accepted-flag id contact request w (some o) = refl

    rejected-flag :
        (id contact : ℕ) (w : World S) (x : Option Object)
        → (rejected rt S now account color id contact w x).0 ≡ is_some x
    rejected-flag id contact w none = refl
    rejected-flag id contact w (some o) = refl

    -- The handlers of requests about contacts and of dispatches, for a request whose id is not 0, while
    -- memory lasts for a sender. A contact request is answered once, with a success, if the handler
    -- returns true, else not at all; and it returns false just if no row has the id and the insertion of
    -- one returns 0. An accepted or rejected request is answered once, with a success just if the
    -- handler returns true, and that is just if the contact request has a row. A dispatch is always
    -- answered, with a success.
    pub contact-Answers :
        (w : World S) (request : Object)
        → request_id request ≢ 0
        → ((a : Answer) → w.answers.makes a ≡ true)
        → let r = process_contact_request rt S now account color w request in
          let a = process_contact_accepted rt S now account color w request in
          let b = process_contact_rejected rt S now account color w request in
          let d = process_dispatch_request rt S now account color w request in
          let row = found rt S now account color w.tables contact_requests in
          let asked_row = row (by_id rt (codes "id") (request_id request)) in
          let known_row =
            row (by_id rt (codes "id") (int_at rt (codes "contactRequestId") request)) in
          (r.0 ≡ (is_some asked_row || not (row_inserted w request == 0)))
          × (r.1.answers.sent
              ≡ (if r.0 then (request_id request, true, []) ∷ w.answers.sent else w.answers.sent))
          × (a.0 ≡ is_some known_row)
          × (a.1.answers.sent ≡ (request_id request, a.0, []) ∷ w.answers.sent)
          × (b.0 ≡ is_some known_row)
          × (b.1.answers.sent ≡ (request_id request, b.0, []) ∷ w.answers.sent)
          × (d.0 ≡ true)
          × (d.1.answers.sent ≡ (request_id request, true, []) ∷ w.answers.sent)
    unfolding process_contact_request process_contact_accepted process_contact_rejected
        process_dispatch_request
    contact-Answers w request known memory = (
      asked-flag (request_id request) request w (found rt S now account color _ _ _),
      ap sent_of (asked-answers (request_id request) request w (found rt S now account color _ _ _))
          ∙ sent_if _ _ w.answers known (memory _),
      accepted-flag (request_id request) _ request w (found rt S now account color _ _ _),
      ap sent_of
            (accepted-answers (request_id request) _ request w (found rt S now account color _ _ _))
          ∙ add_ubj_sender_lem _ w.answers known (memory _),
      rejected-flag (request_id request) _ w (found rt S now account color _ _ _),
      ap sent_of (rejected-answers (request_id request) _ w (found rt S now account color _ _ _))
          ∙ add_ubj_sender_lem _ w.answers known (memory _),
      refl,
      ap (λ l. sent_of (add_ubj_sender (request_id request, true, []) l))
            (if_answers S _ _ _ w.answers (receipt-answers w _) refl)
          ∙ add_ubj_sender_lem _ w.answers known (memory _),
    )

  module _ (newest : S.State → ℕ → Option ℕ) where
    announced-answers :
        (number : ℕ) (w : World S) (x : Bool × S.State)
        → (announced rt S now account newest number w x).1.answers ≡ w.answers
    announced-answers number w (false, s) = refl
    announced-answers number w (true, s) = if_answers S (number == 0) _ _ w.answers refl refl

    process_message-answers :
        (w : World S) (request meta : Object) (number : ℕ)
        → (process_message rt S now account newest w request meta number).1.answers ≡ w.answers
    unfolding process_message
    process_message-answers w request meta number =
        if_answers_of_pair S (has_text rt S now account newest meta)
          (placed rt S now account newest request meta number w
            (latest_history rt S now account newest w.tables (int_at rt (codes "src") request)))
          (true, w) w.answers (announced-answers number w _) refl

    -- The ids of the resources in the meta data.
    abbrev ids_of : Array → List Value
    ids_of nil = []
    ids_of (cons v a) = value_at_key (codes "id") v ∷ ids_of a

    abbrev pub named : Object → List Value
    named meta =
        if num_items (at_key (codes "resources") meta) == 0
        then []
        else ids_of (to_array (at_key (codes "resources") meta))

    with_id-named :
        (v : Value) (x : Option (List Value) × S.State) (a : Array) (l : List Value)
        → ((m : List Value) → x.0 ≡ some m → m ≡ ids_of a)
        → (with_id rt S now account newest v x).0 ≡ some l
        → l ≡ v ∷ ids_of a
    with_id-named v (none, s) a l rest e = absurd cc
    with_id-named v (some m, s) a l rest e = let q = rest m refl in cc

    if_stored-named :
        (x : Bool × S.State) (rest : S.State → Option (List Value) × S.State) (l m : List Value)
        → ((s : S.State) → (rest s).0 ≡ some l → l ≡ m)
        → (if_stored rt S now account newest x rest).0 ≡ some l
        → l ≡ m
    if_stored-named (false, s) rest l m h e = absurd cc
    if_stored-named (true, s) rest l m h e = h s e

    store_resources-named :
        (id : ℕ) (s : S.State) (a : Array) (l : List Value)
        → (store_resources rt S now account newest id s a).0 ≡ some l
        → l ≡ ids_of a
    unfolding store_resources
    store_resources-named id s nil l e = cc
    store_resources-named id s (cons v a) l e =
        if_stored-named (stored_once rt S now account newest s _ _ _) _ l (ids_of (cons v a))
          (λ s' f.
            with_id-named (value_at_key (codes "id") v)
              (store_resources rt S now account newest id s' a) a l
              (λ m g. store_resources-named id s' a m g) f)
          e

    pick :
        (b : Bool) (x y : Option (List Value) × S.State) (l m n : List Value)
        → (x.0 ≡ some l → l ≡ m)
        → (y.0 ≡ some l → l ≡ n)
        → (if b then x else y).0 ≡ some l
        → l ≡ (if b then m else n)
    pick true x y l m n f g e = f e
    pick false x y l m n f g e = g e

    store_push-named :
        (id : ℕ) (request : Object) (key : MemoryBuffer) (meta : Object) (s : S.State)
        (l : List Value)
        → (store_push rt S now account newest id request key meta s).0 ≡ some l
        → l ≡ named meta
    store_push-named id request key meta s l e =
        pick (num_items (at_key (codes "resources") meta) == 0) _ _ l [] _ (λ f. cc)
          (λ f.
            if_stored-named (stored_once rt S now account newest s _ _ _) _ l _
              (λ s' g. store_resources-named id s' _ l g) f)
          e

    told-answers :
        (id : ℕ) (request meta : Object) (w : World S) (x : Option (List Value) × S.State)
        → ((l : List Value) → x.0 ≡ some l → l ≡ named meta)
        → let r = told rt S now account newest id request meta w x in
          r.1.answers ≡ add_ubj_sender (id, r.0, if r.0 then named meta else []) w.answers
    told-answers id request meta w (none, s) h = refl
    told-answers id request meta w (some ids, s) h =
        ap₂ (λ a b. add_ubj_sender (id, true, a) b) (h ids refl)
          (process_message-answers _ request meta _)

    -- While memory lasts for a sender, a push with an id that is not 0, whose key, salt and meta data can be
    -- read, is answered once, whatever the tables hold and
    -- whatever they refuse: with a success just if the handler returns true, and a success
    -- names the resources of the meta data, all and in their order, also those that are stored already.
    pub process_push-Answers :
        (lib : Library) (N : Nettle) (fresh : N.Context) (R : Rsa) (private : Object) (w : World S)
        (request : Object) (key salt : MemoryBuffer) (meta : Object)
        → open_push rt lib N fresh R private request ≡ opened key salt meta
        → request_id request ≢ 0
        → ((a : Answer) → w.answers.makes a ≡ true)
        → (r : Bool × World S) × (process_push rt S now account newest lib N fresh R private w
              request
            ≡ some r)
          × (r.1.answers.sent
              ≡ (request_id request, r.0, if r.0 then named meta else []) ∷ w.answers.sent)
    unfolding process_push
    process_push-Answers lib N fresh R private w request key salt meta e known memory =
        rw (process_push, e)
          (
            _,
            refl,
            ap sent_of (
                  told-answers (request_id request) request meta w
                    (store_push rt S now account newest (request_id request) request key meta
                      w.tables)
                    (λ l f. store_push-named (request_id request) request key meta w.tables l f))
                ∙ add_ubj_sender_lem _ w.answers known (memory _),
          )
