-- ===== src/Requests.antt =====
-- The requests of an `Engine`: src/request.cpp, and `postRequest`, `requestPending`, `process` and
-- the answers of `createStreamReceiver` of src/engine.cpp, with `UbjSender` of src/ubjsender.cpp.
-- `m_requests` is the `std::map` from ids to requests, in the order of the ids. The time is an
-- argument. A request's callback and what a subclass makes of an answer change no state here. That a
-- sender which has sent all sets its request to WaitingForResponse is left out.
pub mod Overdue
pub mod Pending
mod Tests
use Prim.Native.Nat.{compare, Ordering}
use zway_lib.Base.{
  ℕ, ◌+◌, ◌%◌, Bool, true, false, ◌&&◌, ◌||◌, Option, none, some, List, [], ◌∷◌, ◌++◌, ltb, leb,
  ◌==◌, if◌then◌else◌,
}
use zway_lib.Base.Int.{pos}
use zway_lib.Base.Text.{codes}
use zway_lib.Buffer.{MemoryBuffer}
use zway_lib.Stream.Sender.{StreamSender, buffer_sender}
use zway_lib.Ubj.Value.{Runtime, Object, Value, of_object}
use zway_lib.Ubj.Value.Convert.{of_int, of_uint, to_uint, two64}
use zway_lib.Ubj.Object.{set_field, has_field, at_key}
use zway_lib.Ubj.Format.{Library}
use zway_lib.Ubj.Format.Writer.{write}

pub data Status : Type 0 where
  outgoing waiting_for_response completed timeout error : Status

pub record Request : Type 0 where
  pub m_type : ℕ
  pub m_id : ℕ
  pub m_status : Status
  pub m_timeout : ℕ
  pub m_time : ℕ
  pub m_head : Object

abbrev pub Requests : Type 0
Requests = List (ℕ × Request)

abbrev pub Senders : Type 0
Senders = List (MemoryBuffer × StreamSender)

pub record Engine : Type 0 where
  pub m_requests : Requests
  pub m_stream_senders : Senders

-- The map: `find`, `[id] =` and `erase`.
unfoldable pub find_request : ℕ → Requests → Option Request
find_request id [] = none
find_request id ((k, r) ∷ l) = let rest = find_request id l in if id == k then some r else rest

abbrev pub place : ℕ → Request → ℕ → Request → Requests → Requests → Ordering → Requests
place id r k q l rest Ordering.eq = (k, r) ∷ l
place id r k q l rest Ordering.lt = (id, r) ∷ (k, q) ∷ l
place id r k q l rest Ordering.gt = (k, q) ∷ rest

unfoldable pub set_request : ℕ → Request → Requests → Requests
set_request id r [] = (id, r) ∷ []
set_request id r ((k, q) ∷ l) = place id r k q l (set_request id r l) (compare id k)

unfoldable pub erase_request : ℕ → Requests → Requests
erase_request id [] = []
erase_request id ((k, r) ∷ l) =
    let rest = erase_request id l in if id == k then l else (k, r) ∷ rest

-- `Request::checkTimeout`
abbrev pub overdue : ℕ → Request → Bool
overdue time r =
    ltb 0 r.m_timeout && (ltb 0 r.m_time && leb ((r.m_time + r.m_timeout) % two64) time)

abbrev pub timed_out : Request → Request
timed_out r = record r { m_status = timeout }

-- The requests that `process` finds, in the order of the ids.
unfoldable pub expired : ℕ → Requests → List Request
expired time [] = []
expired time ((k, r) ∷ l) =
    let rest = expired time l in if overdue time r then timed_out r ∷ rest else rest

-- What `checkTimeout` leaves in the map.
unfoldable pub checked : ℕ → Requests → Requests
checked time [] = []
checked time ((k, r) ∷ l) = (k, if overdue time r then timed_out r else r) ∷ checked time l

unfoldable pub erase_all : List Request → Requests → Requests
erase_all [] l = l
erase_all (r ∷ rs) l = erase_all rs (erase_request r.m_id l)

-- `Engine::process`: the engine, and the requests that `processRequestTimeout` gets.
unfoldable pub process : ℕ → Engine → Engine × List Request
unfolding expired checked erase_all
process time e =
    let removed = expired time e.m_requests in
    (record e { m_requests = erase_all removed (checked time e.m_requests) }, removed)

-- `requestPending`; an id of 0 stands for any.
unfoldable pub request_pending : ℕ → ℕ → Requests → Bool
request_pending type id [] = false
request_pending type id ((k, r) ∷ l) =
    ((r.m_type == type) && ((id == 0) || (r.m_id == id))) || request_pending type id l

-- `Packet::Request`
abbrev pub request_stream : ℕ
request_stream = 1

module _ (rt : Runtime) (lib : Library) where
  -- `UbjSender::create`
  unfoldable pub ubj_sender : ℕ → ℕ → Value → Option (MemoryBuffer × StreamSender)
  ubj_sender id type v = buffer_sender rt.malloc id type (write rt lib v) true

  abbrev pub head_of : Request → Object
  head_of r =
      set_field (codes "requestType") (of_int rt (pos r.m_type))
        (set_field (codes "requestId") (of_uint rt r.m_id) r.m_head)

  abbrev pub started :
      ℕ
      → Request
      → Option (MemoryBuffer × StreamSender)
      → Request × Option (MemoryBuffer × StreamSender)
  started time r none = (record r { m_status = error }, none)
  started time r (some s) = (record r { m_time = time; m_status = outgoing }, some s)

  -- `Request::start`
  unfoldable pub start : ℕ → Request → Request × Option (MemoryBuffer × StreamSender)
  unfolding ubj_sender
  start time r =
      started time (record r { m_head = head_of r })
        (ubj_sender r.m_id request_stream (of_object (head_of r)))

  -- `addStreamSender`: a sender without an id is refused.
  unfoldable pub add_stream_sender : MemoryBuffer × StreamSender → Engine → Bool × Engine
  add_stream_sender (b, s) e =
      if s.m_id == 0
      then (false, e)
      else (true, record e { m_stream_senders = e.m_stream_senders ++ ((b, s) ∷ []) })

  abbrev pub entered : Request → Bool × Engine → Bool × Request × Engine
  entered r (false, e) = (false, r, e)
  entered r (true, e) = (true, r, record e { m_requests = set_request r.m_id r e.m_requests })

  abbrev pub posted :
      Engine → Request × Option (MemoryBuffer × StreamSender) → Bool × Request × Engine
  posted e (r, none) = (false, r, e)
  posted e (r, some s) = entered r (add_stream_sender s e)

  -- `postRequest`: the result, the request and the engine.
  unfoldable pub post_request : ℕ → Request → Engine → Bool × Request × Engine
  unfolding start add_stream_sender
  post_request time r e =
      if request_pending r.m_type r.m_id e.m_requests
      then (false, r, e)
      else posted e (start time r)

  -- The request that an answer belongs to.
  abbrev pub asked : Object → Requests → Option Request
  asked head l =
      if has_field (codes "requestId") head
      then find_request (to_uint rt (at_key (codes "requestId") head)) l
      else none

  -- `process_response` is `Request::processResponse` of the request's class, and `process_incoming` the
  -- client's `processIncomingRequest`: both may post requests.
  module _ (process_response : Request → Object → Engine → Engine)
      (process_incoming : Object → Engine → Engine) where
    abbrev pub answered : Object → Engine → Option Request → Option Request × Engine
    answered head e none =
        (none, if has_field (codes "requestType") head then process_incoming head e else e)
    answered head e (some r) =
        let e' = process_response r head e in
        (
          some (record r { m_status = completed }),
          record e' { m_requests = erase_request r.m_id e'.m_requests },
        )

    -- A received object: the request that it completes, or none.
    unfoldable pub respond : Object → Engine → Option Request × Engine
    respond head e = answered head e (asked head e.m_requests)
