-- ===== src/Requests/Pending.antt =====
-- Which requests an engine waits for, after a post and after an answer (src/engine.cpp).
use zway_lib.Base.{
  ℕ, ◌≡◌, refl, ap, ◌∙◌, Bool, true, false, not, Option, none, some, [], ◌∷◌, ◌++◌, ◌==◌,
  if◌then◌else◌, arith, ◌&&◌,
}
use zway_lib.Buffer.{MemoryBuffer, create, size}
use zway_lib.Packet.{max_packet_body}
use zway_lib.Stream.Sender
use zway_lib.Stream.Sender.{StreamSender, stream_sender, init_body, buffer_sender, beside}
use zway_lib.Ubj.Value.{Runtime, Object, of_object}
use zway_lib.Ubj.Format.Writer.{write}
use zway_lib.Base.Text.{codes}
use zway_lib.Ubj.Value.Convert.{to_uint}
use zway_lib.Ubj.Object.{at_key, has_field}
use zway_lib.Ubj.Format.{Library}
use zway_lib.Requests.{
  Request, Requests, Engine, find_request, set_request, erase_request, outgoing, completed, started,
  ubj_sender, request_stream, head_of, request_pending, start, add_stream_sender, post_request,
  posted, entered, asked, answered, respond,
}
use zway_lib.Requests.Overdue.{
  IsTable, set_request-From, erase_request-From, find-set_request, find-erase_request,
  find_request-id,
}

-- A sender has the id that it is made with.
abbrev HasId : ℕ → Option (MemoryBuffer × StreamSender) → Type 0
HasId id none = Unit {0}
HasId id (some (b, s)) = s.m_id ≡ id

init_body-HasId :
    (id type n : ℕ) (c : MemoryBuffer) (q : Option MemoryBuffer)
    → HasId id (beside c (init_body (stream_sender id type 0 true) n q))
init_body-HasId id type n c none = tt
init_body-HasId id type n c (some b) = ground arith

buffer_sender-HasId :
    (malloc : ℕ → Bool) (id type : ℕ) (q : Option MemoryBuffer)
    → HasId id (buffer_sender malloc id type q true)
unfolding buffer_sender
buffer_sender-HasId malloc id type none = tt
buffer_sender-HasId malloc id type (some c) =
    unfold Sender.init in init_body-HasId id type (size c) c (create malloc none max_packet_body)

-- The result of `postRequest`.
abbrev pub Posts : ℕ → Engine → Request → Bool × Request × Engine → Type 0
Posts j e r (false, q, e') = e' ≡ e
Posts j e r (true, q, e') =
    IsTable e'.m_requests
    × (q.m_id ≡ r.m_id)
    × (find_request j e'.m_requests ≡ (if j == r.m_id then some q else find_request j e.m_requests))
    × (request_pending r.m_type r.m_id e'.m_requests ≡ true)

pending-set_request :
    (type id key : ℕ) (r : Request) (l : Requests)
    → r.m_type ≡ type
    → r.m_id ≡ id
    → request_pending type id (set_request key r l) ≡ true
unfolding request_pending set_request
pending-set_request type id key r [] t e = ground arith
pending-set_request type id key r ((k, q) ∷ l) t e =
    ground (arith, pending-set_request type id key r l t e)

module _ (rt : Runtime) (lib : Library) where
  entered-Posts :
      (j : ℕ) (r q : Request) (e : Engine) (s : MemoryBuffer × StreamSender)
      → q.m_id ≡ r.m_id
      → q.m_type ≡ r.m_type
      → IsTable e.m_requests
      → Posts j e r (entered rt lib q (add_stream_sender rt lib s e))
  unfolding add_stream_sender
  entered-Posts j r q e (b, s) h t f = by_id (s.m_id == 0)
    where
      by_id :
          (c : Bool)
          → Posts j e r (
              entered rt lib q (
                if c
                then (false, e)
                else (true, record e { m_stream_senders = e.m_stream_senders ++ ((b, s) ∷ []) })))
      by_id true = refl
      by_id false = (
        set_request-From 0 q.m_id q e.m_requests (omega arith) refl f,
        h,
        ground (arith, h, find-set_request q.m_id j q e.m_requests),
        pending-set_request r.m_type r.m_id q.m_id q e.m_requests t h,
      )

  -- Whether there is a sender, and whether it can be added.
  abbrev pub can_start : ℕ → Option (MemoryBuffer × StreamSender) → Bool
  can_start id none = false
  can_start id (some s) = not (id == 0)

  entered-flag :
      (q : Request) (e : Engine) (b : MemoryBuffer) (s : StreamSender)
      → (entered rt lib q (add_stream_sender rt lib (b, s) e)).0 ≡ not (s.m_id == 0)
  unfolding add_stream_sender
  entered-flag q e b s = by_id (s.m_id == 0)
    where
      by_id :
          (c : Bool)
          → (entered rt lib q (
              if c
              then (false, e)
              else (true, record e { m_stream_senders = e.m_stream_senders ++ ((b, s) ∷ []) }))).0
            ≡ not c
      by_id true = refl
      by_id false = refl

  -- A request that is not pending, given what `UbjSender::create` makes.
  posted-Posts :
      (time j : ℕ) (r q : Request) (e : Engine) (s : Option (MemoryBuffer × StreamSender))
      → HasId r.m_id s
      → q.m_id ≡ r.m_id
      → q.m_type ≡ r.m_type
      → IsTable e.m_requests
      → Posts j e r (posted rt lib e (started rt lib time q s))
        × ((posted rt lib e (started rt lib time q s)).0 ≡ can_start r.m_id s)
  posted-Posts time j r q e none g h t f = (refl, refl)
  posted-Posts time j r q e (some (b, s)) g h t f = (
    entered-Posts j r (record q { m_time = time; m_status = outgoing }) e (b, s) h t f,
    entered-flag (record q { m_time = time; m_status = outgoing }) e b s ∙ ap (λ n. not (n == 0)) g,
  )

-- `postRequest`, on requests that stand under their own ids in order: a request is accepted just if
-- none of its type and id is pending, a sender of its head can be made, and its id is not 0. Then the
-- requests stand in order again, the new one is found under its id, every other id finds what it
-- found before, and the request is pending. A refused request leaves the engine as it was.
pub post_request-Posts :
    (rt : Runtime) (lib : Library) (time j : ℕ) (r : Request) (e : Engine)
    → IsTable e.m_requests
    → Posts j e r (post_request rt lib time r e)
      × ((post_request rt lib time r e).0 ≡ (
          not (request_pending r.m_type r.m_id e.m_requests)
          && can_start rt lib r.m_id
              (ubj_sender rt lib r.m_id request_stream (of_object (head_of rt lib r)))))
unfolding post_request start
post_request-Posts rt lib time j r e f = by_pending (request_pending r.m_type r.m_id e.m_requests)
  where
    s : Option (MemoryBuffer × StreamSender)
    s = ubj_sender rt lib r.m_id request_stream (of_object (head_of rt lib r))

    made : HasId r.m_id s
    made =
        unfold ubj_sender in
        buffer_sender-HasId rt.malloc r.m_id request_stream
          (write rt lib (of_object (head_of rt lib r)))

    by_pending :
        (c : Bool)
        → Posts j e r (if c then (false, r, e) else posted rt lib e (start rt lib time r))
          × ((if c then (false, r, e) else posted rt lib e (start rt lib time r)).0
              ≡ (not c && can_start rt lib r.m_id s))
    by_pending true = (refl, refl)
    by_pending false =
        posted-Posts rt lib time j r (record r { m_head = head_of rt lib r }) e s made refl refl f

pub post_request-IsTable :
    (rt : Runtime) (lib : Library) (time : ℕ) (r : Request) (e : Engine)
    → IsTable e.m_requests
    → IsTable (post_request rt lib time r e).2.m_requests
post_request-IsTable rt lib time r e f =
    of_result (post_request rt lib time r e) (post_request-Posts rt lib time 0 r e f).0
  where
    of_result : (x : Bool × Request × Engine) → Posts 0 e r x → IsTable x.2.m_requests
    of_result (true, q, e') h = h.0
    of_result (false, q, e') h = rw h f

module _ (rt : Runtime) (lib : Library) (process_response : Request → Object → Engine → Engine)
    (process_incoming : Object → Engine → Engine) where
  -- The result of a received object, for the request that it belongs to.
  abbrev pub Completes : ℕ → Object → Engine → Option Request → Option Request × Engine → Type 0
  Completes j head e none (q, e') =
      (q ≡ none)
      × (e' ≡ (if has_field (codes "requestType") head then process_incoming head e else e))
  Completes j head e (some r) (q, e') =
      (q ≡ some (record r { m_status = completed }))
      × IsTable e'.m_requests
      × (find_request j e'.m_requests
          ≡ (if j == r.m_id then none else find_request j (process_response r head e).m_requests))
      × (e'.m_stream_senders ≡ (process_response r head e).m_stream_senders)
      × (asked rt lib head e'.m_requests ≡ none)

  asked-erase_request :
      (head : Object) (l m : Requests) (r : Request)
      → IsTable l
      → IsTable m
      → asked rt lib head l ≡ some r
      → asked rt lib head (erase_request r.m_id m) ≡ none
  asked-erase_request head l m r f g e =
      let id = to_uint rt (at_key (codes "requestId") head) in
      ground (arith, e, find-erase_request r.m_id id 0 m g, find_request-id id 0 r l f)

  answered-Completes :
      (j : ℕ) (head : Object) (e : Engine) (q : Option Request)
      → IsTable e.m_requests
      → asked rt lib head e.m_requests ≡ q
      → ((r : Request) → IsTable (process_response r head e).m_requests)
      → Completes j head e q (answered rt lib process_response process_incoming head e q)
  answered-Completes j head e none f h keeps = (refl, refl)
  answered-Completes j head e (some r) f h keeps = (
    refl,
    erase_request-From 0 r.m_id (process_response r head e).m_requests (keeps r),
    find-erase_request r.m_id j 0 (process_response r head e).m_requests (keeps r),
    refl,
    asked-erase_request head e.m_requests (process_response r head e).m_requests r f (keeps r) h,
  )

-- An object that is received as an answer, on requests that stand under their own ids in order,
-- where what the request's class does with the answer leaves such requests. If the field `requestId`
-- holds the id of one of them, this one is completed and no longer found, every other id finds what it
-- finds after the class has processed the answer, the requests stand in order again, and the same
-- object would complete none any more. Without such a request, an object with a field `requestType`
-- is processed as a request of the peer, and for any other nothing changes.
pub respond-Completes :
    (rt : Runtime) (lib : Library) (process_response : Request → Object → Engine → Engine)
    (process_incoming : Object → Engine → Engine) (j : ℕ) (head : Object) (e : Engine)
    → IsTable e.m_requests
    → ((r : Request) → IsTable (process_response r head e).m_requests)
    → Completes rt lib process_response process_incoming j head e
        (asked rt lib head e.m_requests)
        (respond rt lib process_response process_incoming head e)
unfolding respond
respond-Completes rt lib process_response process_incoming j head e f keeps =
    answered-Completes rt lib process_response process_incoming j head e
      (asked rt lib head e.m_requests) f refl keeps
