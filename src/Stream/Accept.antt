-- ===== src/Stream/Accept.antt =====
-- `StreamReceiver::process` on any packet of its stream (src/streamreceiver.cpp).
use zway_lib.Base.{
  ℕ, ◌+◌, ◌-◌, ◌*◌, ◌%◌, ◌≡◌, refl, Bool, true, false, not, ◌&&◌, ◌||◌, Option, none, some, ◌∷◌,
  arith, leb, ltb, ◌==◌, if◌then◌else◌,
}
use zway_lib.Buffer.{MemoryBuffer, write}
use zway_lib.Packet.{Packet, u32, max_packet_body}
use zway_lib.Stream.Receiver.{completed, error, BufferReceiver, process, process_packet, processed}

-- Whether a part begins the stream or is the next one behind the last that came.
abbrev pub follows : BufferReceiver → Packet → Bool
follows r p = leb p.m_head.part 1 || (p.m_head.part == (r.m_part + 1) % u32)

-- Where the bytes of a part belong.
abbrev pub place_of : Packet → ℕ
place_of p = ((p.m_head.part + u32 - 1) % u32 * max_packet_body) % u32

-- The buffer with a packet's bytes written to it, if the buffer's write can do it.
abbrev pub written : BufferReceiver → Packet → MemoryBuffer → Option (MemoryBuffer × ℕ)
written r p body = write r.m_buffer body.m_data p.m_head.body_size (place_of p)

-- What a part leaves that cannot be written.
abbrev pub Fails : BufferReceiver → BufferReceiver → Type 0
Fails r t =
    (t.m_status ≡ error)
    × (t.m_part ≡ r.m_part)
    × (t.m_buffer ≡ r.m_buffer)
    × (t.m_bytes_received ≡ r.m_bytes_received)
    × (t.calls ≡ (if r.m_callback then (error, r.m_bytes_received) ∷ r.calls else r.calls))

-- What a part leaves that is written to the buffer `b`.
abbrev pub Proceeds : BufferReceiver → Packet → MemoryBuffer → BufferReceiver → Type 0
Proceeds r p b t =
    (t.m_part ≡ p.m_head.part)
    × (t.m_parts ≡ r.m_parts)
    × (t.m_buffer ≡ b)
    × (t.m_bytes_received ≡ (r.m_bytes_received + p.m_head.body_size) % u32)
    × (t.m_status ≡ (if p.m_head.part == r.m_parts then completed else r.m_status))
    × (t.calls ≡ (
        if (p.m_head.part == r.m_parts) && r.m_callback
        then (completed, t.m_bytes_received) ∷ r.calls
        else r.calls))

-- The result of a packet, by whether its part follows and what its write gives.
abbrev pub Accepts :
    BufferReceiver → Packet → Bool → Option (MemoryBuffer × ℕ) → Bool × BufferReceiver → Type 0
Accepts r p false w x = x ≡ (false, r)
Accepts r p true none (accepted, t) = (accepted ≡ false) × Fails r t
Accepts r p true (some (b, n)) (accepted, t) = (accepted ≡ true) × Proceeds r p b t

-- Every packet with a body, in or out of order, has a result. A part that neither begins the stream nor
-- is the next behind the last one is refused, and nothing changes. Of the others, one whose bytes the
-- buffer cannot take at the part's place is refused with the error, the callback sees that, and the
-- last part, the buffer and the number of bytes stay; any other is accepted, becomes the last part,
-- its bytes are in the buffer and are counted, and if its number is the number of parts, the stream
-- is completed and the callback sees that.
pub process-Accepts :
    (r : BufferReceiver) (p : Packet) (body : MemoryBuffer)
    → p.m_body ≡ some body
    → (x : Bool × BufferReceiver) × (process r p ≡ some x)
      × Accepts r p (follows r p) (written r p body) x
unfolding process process_packet
process-Accepts r p body e = by_order (follows r p) _ refl (ground arith)
  where
    -- The packet's body, once it has been read.
    handled : Option (MemoryBuffer × ℕ) → Option BufferReceiver
    handled w = elim w [
      | none ↦ none
      | some (b, n) ↦ some (record r {
        m_buffer = b;
        m_bytes_received = (r.m_bytes_received + p.m_head.body_size) % u32;
      })
    ]

    wrote :
        (w : Option (MemoryBuffer × ℕ)) → Accepts r p true w (processed r p.m_head.part (handled w))
    wrote none = ground arith
    wrote (some (b, n)) = ground arith

    by_order :
        (f c : Bool)
        → (ltb 1 p.m_head.part && not (p.m_head.part == (r.m_part + 1) % u32)) ≡ c
        → not f ≡ c
        → (x : Bool × BufferReceiver) × (process r p ≡ some x) × Accepts r p f (written r p body) x
    by_order false false g h = absurd cc
    by_order true true g h = absurd cc
    by_order false true g h = rw g (_, refl, refl)
    by_order true false g h = rw (g, process_packet, e) (_, refl, wrote (written r p body))
