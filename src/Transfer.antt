-- ===== src/Transfer.antt =====
-- A buffer on its way from a `BufferSender` to a `BufferReceiver`: the loops of
-- `Engine::processStreamSenders` and `Engine::processIncomingPacket` (src/engine.cpp) for one stream,
-- joined by the link of `Wire`.
pub mod Step
pub mod Complete
mod Tests
use zway_lib.Base.{ℕ, zero, suc, Bool, true, false, Option, none, some, List, []}
use zway_lib.Buffer.{MemoryBuffer, copy}
use zway_lib.Packet.{Packet, set_body}
use zway_lib.Stream.Sender
use zway_lib.Stream.Sender.{StreamSender, process_buffer}
use zway_lib.Stream.Receiver
use zway_lib.Stream.Receiver.{BufferReceiver, create_receiver}
use zway_lib.Wire.{Received, received, closed, recv_failed, waiting, Sent, send_packet, recv_packet}

module _ (malloc : ℕ → Bool) where
  abbrev got : Received × List ℕ → Option Packet
  got (received p n, link) = some p
  got (closed, link) = none
  got (recv_failed, link) = none
  got (waiting, link) = none

  abbrev over_link : Option (List ℕ × Sent) → Option Packet
  over_link none = none
  over_link (some (link, s)) = got (recv_packet malloc link)

  -- `processStreamSenders` gives the packet a copy of the body, and it goes over the link. `none`: the
  -- packet has no body, or does not come through.
  unfoldable pub carry : Packet → Option Packet
  carry p = elim p.m_body [
    | none ↦ none
    | some b ↦ over_link (send_packet [] (set_body p (copy malloc b) p.m_head.body_size))
  ]

  abbrev created : Option BufferReceiver → Packet → Option (Bool × BufferReceiver)
  created none p = none
  created (some r) p = Receiver.process r p

  -- `processIncomingPacket`: the first packet of a stream makes its receiver.
  unfoldable pub accept : Bool → Option BufferReceiver → Packet → Option (Bool × BufferReceiver)
  accept callback none p = created (create_receiver malloc p none callback) p
  accept callback (some r) p = Receiver.process r p

-- The loop for one stream: `send` is the sender's `process` with the state `X` of its class, `take_in`
-- what the other end does with a packet.
module _ (malloc : ℕ → Bool) {X R : Type 0}
    (send : X → StreamSender → Bool × Option Packet × X × StreamSender)
    (take_in : Option R → Packet → Option (Bool × R)) where
  abbrev pub State : Type 0
  State = StreamSender × Option R

  abbrev pub Rest : Type 0
  Rest = X → StreamSender → Option R → Option State

  -- A round: the sender leaves the list when it is done or has failed, else the loop goes on.
  abbrev pub next : Rest → X → StreamSender → Option R → Option State
  next rest x s r = elim s.m_status [ Sender.completed ↦ some (s, r) | _ ↦ rest x s r ]

  -- A packet that is refused erases the receiver, so the next one makes a new one. A receiver that has all
  -- its parts is the result here, and the engine erases it too.
  abbrev took : Rest → X → StreamSender → Option (Bool × R) → Option State
  took rest x s none = none
  took rest x s (some (true, r)) = next rest x s (some r)
  took rest x s (some (false, r)) = next rest x s none

  abbrev carried : Rest → X → StreamSender → Option R → Option Packet → Option State
  carried rest x s r none = none
  carried rest x s r (some p) = took rest x s (take_in r p)

  abbrev round : Rest → Option R → Bool × Option Packet × X × StreamSender → Option State
  round rest r (false, p, x, s) = some (s, r)
  round rest r (true, none, x, s) = next rest x s r
  round rest r (true, some p, x, s) = carried rest x s r (carry malloc p)

  unfoldable pub exchange : ℕ → X → StreamSender → Option R → Option State
  exchange zero x s r = some (s, r)
  exchange (suc fuel) x s r = round (λ x' s' r'. exchange fuel x' s' r') r (send x s)

unfoldable pub transfer :
    (ℕ → Bool)
    → ℕ
    → Bool
    → MemoryBuffer
    → StreamSender
    → Option BufferReceiver
    → Option (StreamSender × Option BufferReceiver)
unfolding exchange
transfer malloc fuel callback b s r =
    exchange malloc process_buffer (λ r' p. accept malloc callback r' p) fuel b s r
