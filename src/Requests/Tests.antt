-- ===== src/Requests/Tests.antt =====
-- Runs of an engine with two requests.
use zway_lib.Base.{ℕ, ◌≡◌, refl, not, ◌&&◌, [], ◌∷◌, arith}
use zway_lib.Base.Text.{codes}
use zway_lib.Ubj.Fixture.{some_runtime}
use zway_lib.Ubj.Value.{Object, end, field, value, int32, buffered, of_object}
use zway_lib.Ubj.Value.Convert.{bytes4}
use zway_lib.Buffer.{of_bytes}
use zway_lib.Ubj.Format.{Library, null_dyn}
use zway_lib.Requests.{
  Request, outgoing, Engine, process, erase_request, find_request, post_request, respond, asked,
  request_pending, ubj_sender, request_stream, head_of,
}
use zway_lib.Requests.Overdue.{IsTable, unless_overdue, process-IsTable}
use zway_lib.Requests.Pending.{
  Posts, Completes, can_start, post_request-Posts, post_request-IsTable, respond-Completes,
}

abbrev request : ℕ → ℕ → Request
request id time = record {
  m_type = 2;
  m_id = id;
  m_status = outgoing;
  m_timeout = 20;
  m_time = time;
  m_head = end;
}

abbrev engine : Engine
engine = record { m_requests = (3, request 3 100) ∷ (5, request 5 110) ∷ []; m_stream_senders = [] }

abbrev one_byte : Library
one_byte = record { written = λ l. 1 ∷ []; read_dynamic = λ l. null_dyn }

abbrev answer : Object
answer = field (codes "requestId") (value int32 (buffered (of_bytes (bytes4 5)))) end

engine-IsTable : IsTable engine.m_requests
engine-IsTable = (omega arith, refl, (omega arith, refl, tt))

first_expires : (process 120 engine).0.m_requests ≡ (5, request 5 110) ∷ []
unfolding process erase_request
first_expires = refl

process-IsTable_example :
    IsTable (process 120 engine).0.m_requests
    × ((process 120 engine).0.m_stream_senders ≡ [])
    × (find_request 3 (process 120 engine).0.m_requests
        ≡ unless_overdue 120 (find_request 3 engine.m_requests))
process-IsTable_example = process-IsTable 120 3 engine engine-IsTable

post_request-Posts_example :
    Posts 5 engine (request 4 0) (post_request some_runtime one_byte 130 (request 4 0) engine)
    × ((post_request some_runtime one_byte 130 (request 4 0) engine).0 ≡ (
        not (request_pending 2 4 engine.m_requests)
        && can_start some_runtime one_byte 4 (
            ubj_sender some_runtime one_byte 4 request_stream
              (of_object (head_of some_runtime one_byte (request 4 0))))))
post_request-Posts_example =
    post_request-Posts some_runtime one_byte 130 5 (request 4 0) engine engine-IsTable

-- An answer upon which another request is posted.
abbrev posts_next : Request → Object → Engine → Engine
posts_next r head e = (post_request some_runtime one_byte 130 (request 9 0) e).2

respond-Completes_example :
    Completes some_runtime one_byte posts_next
      (λ head e. e)
      3
      answer
      engine
      (asked some_runtime one_byte answer engine.m_requests)
      (respond some_runtime one_byte posts_next (λ head e. e) answer engine)
respond-Completes_example =
    respond-Completes some_runtime one_byte posts_next (λ head e. e) 3 answer engine engine-IsTable
      (λ r. post_request-IsTable some_runtime one_byte 130 (request 9 0) engine engine-IsTable)
