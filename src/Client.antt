-- ===== src/Client.antt =====
-- `Client::send` and `Client::recv` of src/client.cpp: the loops over a connection.
-- One turn of a loop is what the world answers in it: whether the client is canceled, what `writable`
-- or `readable` returns, and what `gnutls_record_send` or `gnutls_record_recv` does, which moves at
-- most as many bytes as it is given room for. The peer's bytes stand in a list; where it is empty and
-- the peer has closed, `gnutls_record_recv` returns 0. A call that is not over when the turns are is
-- `waiting`.
pub mod Loops
pub mod Bytes
pub mod Packets
mod Tests
use zway_lib.Base.{
  ℕ, ◌+◌, ◌-◌, Bool, List, [], ◌∷◌, ◌++◌, length, take, drop, min, ltb, if◌then◌else◌,
}

-- The socket cannot be asked, is not ready, or is.
pub data Ready : Type 0 where
  failed no yes : Ready

-- A fatal error, one that is not, and the number of bytes that can be moved.
pub data Record : Type 0 where
  fatal again : Record
  moves : ℕ → Record

pub record Turn : Type 0 where
  pub canceled : Bool
  pub ready : Ready
  pub gnutls : Record

-- `(uint32_t)-1`
abbrev pub minus_one : ℕ
minus_one = 4294967295

-- Bytes sent or received so far, the bytes on the link, and the turns that are left.
pub record Progress : Type 0 where
  pub moved : List ℕ
  pub link : List ℕ
  pub turns : List Turn

pub data Outcome : Type 0 where
  returned : ℕ → Progress → Outcome
  waiting : Outcome

-- One turn of a loop that has `s` bytes behind it: it ends with a value, or goes on, with so many
-- bytes moved.
pub data Verdict : Type 0 where
  ends : ℕ → Verdict
  goes_on : ℕ → Verdict

abbrev pub moved_by : Record → ℕ → Verdict
moved_by fatal room = ends minus_one
moved_by again room = goes_on 0
moved_by (moves k) room = goes_on (min k room)

abbrev pub if_ready : Ready → Record → ℕ → Verdict
if_ready failed r room = ends minus_one
if_ready no r room = goes_on 0
if_ready yes r room = moved_by r room

-- `room` bytes can still be moved.
unfoldable pub turn : Turn → ℕ → ℕ → Verdict
turn t s room = if t.canceled then ends s else if_ready t.ready t.gnutls room

abbrev continues : Verdict → Progress → (ℕ → Outcome) → Outcome
continues (ends r) p rest = returned r p
continues (goes_on k) p rest = rest k

-- `send` of the rest of its data, with `sent` bytes behind it.
unfoldable pub send_loop : List Turn → List ℕ → ℕ → List ℕ → List ℕ → Outcome
unfolding turn
send_loop [] rest size sent link =
    if ltb (length sent) size
    then waiting
    else returned (length sent) (record { moved = sent; link = link; turns = [] })
send_loop (t ∷ ts) rest size sent link =
    if ltb (length sent) size
    then continues (turn t (length sent) (size - length sent))
        (record { moved = sent; link = link; turns = ts })
        (λ k. send_loop ts (drop k rest) size (sent ++ take k rest) (link ++ take k rest))
    else returned (length sent) (record { moved = sent; link = link; turns = t ∷ ts })

unfoldable pub send : List Turn → List ℕ → ℕ → List ℕ → Outcome
unfolding send_loop
send ts p size link = send_loop ts p size [] link

-- `recv`, with `got` bytes behind it.
unfoldable pub recv_loop : List Turn → ℕ → List ℕ → List ℕ → Outcome
unfolding turn
recv_loop [] size got link =
    if ltb (length got) size
    then waiting
    else returned (length got) (record { moved = got; link = link; turns = [] })
recv_loop (t ∷ ts) size got link =
    if ltb (length got) size
    then continues (turn t (length got) (size - length got))
        (record { moved = got; link = link; turns = ts })
        (λ k. recv_loop ts size (got ++ take k link) (drop k link))
    else returned (length got) (record { moved = got; link = link; turns = t ∷ ts })

unfoldable pub recv : List Turn → ℕ → List ℕ → Outcome
unfolding recv_loop
recv ts size link = recv_loop ts size [] link
